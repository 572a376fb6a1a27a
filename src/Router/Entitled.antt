-- ===== src/Router/Entitled.antt =====
-- Which fee recipients a node may name, in terms of the cache's contents and hexadecimal text.
use rescue_proxy.Prelude.{
  Bytes, Bool, true, false, none, some, ◌∷◌, ◌≡◌, ◌⊎◌, ◌↔◌, arith, Option-cases, inl, inr, nat_eq,
  list_eq, map, list_beq_iff,
}
use rescue_proxy.Prelude.Hex.{equal_fold, to_lower, hex}
use rescue_proxy.Cache.{address_eq, address_same_iff, Address, Pubkey, NodeInfo, Contents}
use rescue_proxy.Execution.{Contracts}
use rescue_proxy.Execution.Recipient.{recipient_of, owned_by_another, expected_recipient}

-- A text is an address: 0x and its bytes in hexadecimal, up to the case of the letters.
abbrev pub Names : Bytes → Address → Type 0
Names text address = map to_lower text ≡ b'0' ∷ b'x' ∷ hex address.bytes

-- What go-ethereum documents of `Address.String`: the mixed-case text of EIP-55.
pub record IsHexString (address_string : Address → Bytes) : Type 0 where
  pub names : (a : Address) → Names (address_string a) a

-- The validator is a minipool of the node, and the text names the address that the node has to use: the
-- smoothing pool if the node is in it, and its own fee distributor if not.
pub record IsEntitled (k : Contracts) (v : Contents) (node : Address) (p : Pubkey)
    (Says : Address → Type 0) : Type 0 where
  pub info : NodeInfo
  pub owned : v.minipools p ≡ some node
  pub known : v.nodes node ≡ some info
  pub named : Says (expected_recipient k info)

-- The validator is in nobody's minipools, or its node is not known.
pub record IsUnknown (v : Contents) (node : Address) (p : Pubkey) : Type 0 where
  pub unknown : (v.minipools p ≡ none) ⊎ ((v.minipools p ≡ some node) × (v.nodes node ≡ none))

module _ (k : Contracts) (v : Contents) (node : Address) (p : Pubkey) where
  -- An expected address: the validator is the node's own, and the address is that of its record.
  pub recipient_of-some :
      (a : Address) (unowned : Bool)
      → recipient_of k v p (some node) ≡ (some a, unowned)
      → IsEntitled k v node p (λ b. b ≡ a)
  unfolding owned_by_another
  recipient_of-some a unowned e = elim (Option-cases (v.minipools p)) [
    | inl missing ↦ absurd (ground arith)
    | inr (owner, found) ↦ elim (Option-cases (v.nodes owner)) [
      | inl unknown ↦ absurd (ground arith)
      | inr (info, known) ↦ record {
        info = info;
        owned = ground (arith, address_same_iff node owner);
        known = ground (arith, address_same_iff node owner);
        named = ground (arith, address_same_iff node owner);
      }
    ]
  ]

  pub recipient_of-none : recipient_of k v p (some node) ≡ (none, false) → IsUnknown v node p
  unfolding owned_by_another
  recipient_of-none e = elim (Option-cases (v.minipools p)) [
    | inl missing ↦ record { unknown = inl missing }
    | inr (owner, found) ↦ record {
      unknown = inr (
        ground (arith, address_same_iff node owner),
        ground (arith, address_same_iff node owner),
      );
    }
  ]

  -- Conversely, a node's own minipool is answered with the address of the node's record.
  pub recipient_of-IsEntitled :
      (a : Address)
      → IsEntitled k v node p (λ b. b ≡ a)
      → recipient_of k v p (some node) ≡ (some a, false)
  unfolding owned_by_another
  recipient_of-IsEntitled a h =
      ground (arith, h.owned, h.known, h.named, address_same_iff node node)

module _ (address_string : Address → Bytes) (law : IsHexString address_string) where
  -- `EqualFold` with an address's own text is `Names`.
  pub equal_fold_iff :
      (a : Address) (text : Bytes) → (equal_fold (address_string a) text ≡ true) ↔ Names text a
  unfolding equal_fold
  equal_fold_iff a text =
      ground
        (arith, law.names a, list_beq_iff (map to_lower (address_string a)) (map to_lower text))

-- A validator that is not a known node's minipool is answered with no address.
pub recipient_of-IsUnknown :
    (k : Contracts) (v : Contents) (node : Address) (p : Pubkey)
    → IsUnknown v node p
    → recipient_of k v p (some node) ≡ (none, false)
unfolding owned_by_another
recipient_of-IsUnknown k v node p h = ground (arith, h.unknown, address_same_iff node node)
