-- ===== src/Router/Agreed.antt =====
-- The guard of the HTTP proxy and the one of the gRPC proxy, each on one validator's fee recipient.
use rescue_proxy.Prelude.{
  ℕ, Bytes, Bool, true, Option, some, ◌≡◌, ◌↔◌, arith, Option-cases, inl, inr, nat_eq, list_eq,
  beq_refl,
}
use rescue_proxy.Prelude.Map
use rescue_proxy.Prelude.Map.{Map}
use rescue_proxy.Prelude.Decimal.{format_uint}
use rescue_proxy.Prelude.Hex.{equal_fold}
use rescue_proxy.Prelude.Exec.{ok}
use rescue_proxy.Cache.{address_eq, address_same_iff, Address, Pubkey, CacheLaws}
use rescue_proxy.Execution.Recipient.{recipient_of}
use rescue_proxy.Execution.Recipient.Laws.{validator_fee_recipient-Answers}
use rescue_proxy.Router.World.{World, Services}
use rescue_proxy.Router.Entitled.{IsHexString, Names, equal_fold_iff}
use rescue_proxy.Router.Http.{Proposer, Codec, check_proposer}
use rescue_proxy.Router.Grpc.{FeeRecipientContainer, Protobuf, check_container}

module _ {S B : Type 0} (x : Services S B) (l : CacheLaws x.cache) (codec : Codec)
    (proto : Protobuf) (law : IsHexString x.address_string) (pubkeys : Map Bytes Pubkey)
    (node : Address) where
  abbrev by_text : ℕ → Bytes → Proposer
  by_text i text = record { validator_index = format_uint i; fee_recipient = text }

  abbrev by_bytes : ℕ → Address → FeeRecipientContainer
  by_bytes i a = record { validator_index = i; fee_recipient = a.bytes }

  abbrev PassesHttp : ℕ → Bytes → World S B → Type 0
  PassesHttp i text w = (check_proposer x codec pubkeys node (by_text i text) w).0 ≡ ok tt

  abbrev PassesGrpc : ℕ → Address → World S B → Type 0
  PassesGrpc i a w = (check_container x proto pubkeys node (by_bytes i a) w).0 ≡ ok tt

  -- The recipient that the cache's contents give a public key.
  abbrev expects : Pubkey → World S B → Option Address × Bool
  expects pubkey w = recipient_of x.contracts (l.contents w.el.cache) pubkey (some node)

  -- What either guard needs: a public key, and an address that is expected of it.
  abbrev Expects : ℕ → World S B → Address → Type 0
  Expects i w b =
      (pubkey : Pubkey) × (unowned : Bool) × (Map.get (format_uint i) pubkeys ≡ some pubkey)
      × (expects pubkey w ≡ (some b, unowned))

  http_passes :
      (i : ℕ) (text : Bytes) (w : World S B)
      → l.healthy w.el.cache ≡ true
      → PassesHttp i text w
      → (b : Address) × Expects i w b × (equal_fold (x.address_string b) text ≡ true)
  unfolding check_proposer
  http_passes i text w h passes = elim (Option-cases (Map.get (format_uint i) pubkeys)) [
    | inl missing ↦ absurd (ground arith)
    | inr (pubkey, found) ↦
        let a = validator_fee_recipient-Answers l x.contracts pubkey (some node) w.el h in
        elim (Option-cases (expects pubkey w).0) [
          | inl unowned ↦ absurd (ground (arith, a))
          | inr (b, expected) ↦
              (b, (pubkey, (expects pubkey w).1, found, ground arith), ground (arith, a))
        ]
  ]

  grpc_passes :
      (i : ℕ) (b : Address) (w : World S B)
      → l.healthy w.el.cache ≡ true
      → PassesGrpc i b w
      → Expects i w b
  unfolding check_container
  grpc_passes i given w h passes = elim (Option-cases (Map.get (format_uint i) pubkeys)) [
    | inl missing ↦ absurd (ground arith)
    | inr (pubkey, found) ↦
        let a = validator_fee_recipient-Answers l x.contracts pubkey (some node) w.el h in
        elim (Option-cases (expects pubkey w).0) [
          | inl unowned ↦ absurd (ground (arith, a))
          | inr (b, expected) ↦
              let same = (address_same_iff b given).0 (ground (arith, a)) in
              (pubkey, (expects pubkey w).1, found, ground (arith, same))
        ]
  ]

  passes_http :
      (i : ℕ) (text : Bytes) (b : Address) (w : World S B)
      → l.healthy w.el.cache ≡ true
      → Expects i w b
      → equal_fold (x.address_string b) text ≡ true
      → PassesHttp i text w
  unfolding check_proposer
  passes_http i text b w h (pubkey, unowned, found, expected) names =
      ground (arith, validator_fee_recipient-Answers l x.contracts pubkey (some node) w.el h)

  passes_grpc :
      (i : ℕ) (b : Address) (w : World S B)
      → l.healthy w.el.cache ≡ true
      → Expects i w b
      → PassesGrpc i b w
  unfolding check_container
  passes_grpc i b w h (pubkey, unowned, found, expected) = ground (
    arith,
    beq_refl b.bytes,
    validator_fee_recipient-Answers l x.contracts pubkey (some node) w.el h,
  )

  -- On a healthy cache, the HTTP proxy lets a validator's index in decimal pass with a text exactly
  -- if the text is the hexadecimal of an address, in any letter case, with which the gRPC proxy
  -- lets the index pass.
  pub check_proposer-check_container :
      (i : ℕ) (text : Bytes) (w : World S B)
      → l.healthy w.el.cache ≡ true
      → PassesHttp i text w ↔ ((a : Address) × Names text a × PassesGrpc i a w)
  check_proposer-check_container i text w h = (
    λ passes.
        let (b, expected, names) = http_passes i text w h passes in
        (b, (equal_fold_iff x.address_string law b text).0 names, passes_grpc i b w h expected),
    λ found.
        let (a, named, passes) = found in
        passes_http i text a w h (grpc_passes i a w h passes)
          ((equal_fold_iff x.address_string law a text).1 named),
  )
