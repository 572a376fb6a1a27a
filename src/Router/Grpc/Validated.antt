-- ===== src/Router/Grpc/Validated.antt =====
-- What the callbacks of the gRPC proxy let through.
use rescue_proxy.Prelude.{
  Bytes, Bool, true, false, Option, none, some, List, ◌∷◌, ◌≡◌, ◌⊎◌, refl, arith, Option-cases, inl,
  inr, nat_eq, list_eq, map, All, sym, ◌==◌, eq_of_beq, ap, ◌∙◌,
}
use rescue_proxy.Prelude.Map
use rescue_proxy.Prelude.Map.{Map}
use rescue_proxy.Prelude.Decimal.{format_uint}
use rescue_proxy.Prelude.Exec.{Result-cases, ok}
use rescue_proxy.Cache.{address_eq, Address, Pubkey, Contents, CacheLaws}
use rescue_proxy.Consensus.{get_validator_pubkey}
use rescue_proxy.Execution.Recipient.{validator_fee_recipient}
use rescue_proxy.Execution.Recipient.Laws.{validator_fee_recipient_sound}
use rescue_proxy.Router.World.{World, Services}
use rescue_proxy.Router.Entitled.{IsEntitled, IsUnknown, recipient_of-some, recipient_of-none}
use rescue_proxy.Router.Http.Guarded.{Passed, for_each-Passed}
use rescue_proxy.Router.Grpc.{
  FeeRecipientContainer, ValidatorRegistration, Protobuf, as_pubkey, check_container, check_signed,
  validate_prepare_beacon_proposer, validate_register_validators,
}

-- A container whose index has a public key, that of a minipool of the node, and whose fee recipient is
-- the address that the node has to use.
abbrev pub IsContained :
    {S B : Type 0}
    → Services S B
    → Map Bytes Pubkey
    → Address
    → FeeRecipientContainer
    → Contents
    → Type 0
IsContained x pubkeys node p v =
    (pubkey : Pubkey) × (Map.get (format_uint p.validator_index) pubkeys ≡ some pubkey)
    × IsEntitled x.contracts v node pubkey (λ a. a.bytes ≡ p.fee_recipient)

-- A registration that is there, whose public key has its 48 bytes, and which is of nobody's minipool, or
-- of the node's with the fee recipient that it has to use.
pub record IsSigned {S B : Type 0} (x : Services S B) (node : Address)
    (r : Option ValidatorRegistration) (v : Contents) : Type 0 where
  pub message : ValidatorRegistration
  pub present : r ≡ some message
  pub pubkey : Pubkey
  pub long_enough : as_pubkey message.pubkey ≡ some pubkey
  pub entitled :
      IsUnknown v node pubkey
      ⊎ IsEntitled x.contracts v node pubkey (λ a. a.bytes ≡ message.fee_recipient)

module _ {S B : Type 0} (x : Services S B) (l : CacheLaws x.cache) (proto : Protobuf)
    (node : Address) where
  named :
      (v : Contents) (pubkey : Pubkey) (a : Address) (given : Bytes) (unowned : Bool)
      → (a.bytes == given) ≡ true
      → IsEntitled x.contracts v node pubkey (λ b. b ≡ a)
      → IsEntitled x.contracts v node pubkey (λ b. b.bytes ≡ given)
  named v pubkey a given unowned same h = record {
    info = h.info;
    owned = h.owned;
    known = h.known;
    named = ap (λ (b : Address). b.bytes) h.named ∙ eq_of_beq a.bytes given same;
  }

  check_container-Passed :
      (pubkeys : Map Bytes Pubkey) (p : FeeRecipientContainer) (w : World S B)
      → (check_container x proto pubkeys node p w).0 ≡ ok tt
      → Passed x l (IsContained x pubkeys node p) w (check_container x proto pubkeys node p w).1
  unfolding check_container
  check_container-Passed pubkeys p w h =
      elim (Option-cases (Map.get (format_uint p.validator_index) pubkeys)) [
        | inl missing ↦ absurd (ground arith)
        | inr (pubkey, found) ↦
            elim (Result-cases
              (validator_fee_recipient x.cache x.contracts pubkey (some node) w.el).0) [
                | inl ((some a, unowned), returned) ↦
                    let (right, kept) =
                      validator_fee_recipient_sound l x.contracts pubkey (some node) w.el _
                        returned in
                    record {
                      held = (
                        pubkey,
                        found,
                        named _ pubkey a p.fee_recipient unowned (ground arith)
                            (recipient_of-some x.contracts _ node pubkey a unowned (sym right)),
                      );
                      kept = ground arith;
                    }
                | inl ((none, unowned), returned) ↦ absurd (ground arith)
                | inr (e, panic) ↦ absurd (ground arith)
              ]
      ]

  check_signed-Passed :
      (r : Option ValidatorRegistration) (w : World S B)
      → (check_signed x proto node r w).0 ≡ ok tt
      → Passed x l (IsSigned x node r) w (check_signed x proto node r w).1
  unfolding check_signed
  check_signed-Passed none w h = absurd (ground arith)
  check_signed-Passed (some message) w h = elim (Option-cases (as_pubkey message.pubkey)) [
    | inl missing ↦ absurd (ground arith)
    | inr (pubkey, found) ↦
        elim (Result-cases
          (validator_fee_recipient x.cache x.contracts pubkey (some node) w.el).0) [
            | inl ((some a, unowned), returned) ↦
                let (right, kept) =
                  validator_fee_recipient_sound l x.contracts pubkey (some node) w.el _ returned in
                record {
                  held = record {
                    message = message;
                    present = refl;
                    pubkey = pubkey;
                    long_enough = found;
                    entitled = inr (
                        named _ pubkey a message.fee_recipient unowned (ground arith)
                          (recipient_of-some x.contracts _ node pubkey a unowned (sym right)));
                  };
                  kept = ground arith;
                }
            | inl ((none, false), returned) ↦
                let (right, kept) =
                  validator_fee_recipient_sound l x.contracts pubkey (some node) w.el _ returned in
                record {
                  held = record {
                    message = message;
                    present = refl;
                    pubkey = pubkey;
                    long_enough = found;
                    entitled = inl (recipient_of-none x.contracts _ node pubkey (sym right));
                  };
                  kept = ground arith;
                }
            | inl ((none, true), returned) ↦ absurd (ground arith)
            | inr (e, panic) ↦ absurd (ground arith)
          ]
  ]

  -- What a message that validatePrepareBeaconProposer accepts holds.
  pub record IsValidated (unknown : Bytes) (w : World S B) : Type 0 where
    pub recipients : List FeeRecipientContainer
    pub decoded : proto.unmarshal_recipients unknown ≡ some recipients
    pub pubkeys : Map Bytes Pubkey
    pub resolved :
        (get_validator_pubkey x.pubkeys x.node
          (map (λ (p : FeeRecipientContainer). format_uint p.validator_index) recipients)
          w.cl).0
        ≡ some pubkeys
    pub contained : All (λ p. IsContained x pubkeys node p (l.contents w.el.cache)) recipients

  -- If validatePrepareBeaconProposer accepts a message, then the message decodes, every index in it
  -- was resolved to a public key, every key is that of a minipool of the node, and every fee
  -- recipient is the smoothing pool's address if the node is in it and the node's fee distributor
  -- if not. This holds whatever faults the cache's storage has, if each shows as an error.
  pub validate_prepare_beacon_proposer-IsValidated :
      (unknown : Bytes) (w : World S B)
      → (validate_prepare_beacon_proposer x proto unknown node w).0 ≡ ok tt
      → IsValidated unknown w
  unfolding validate_prepare_beacon_proposer
  validate_prepare_beacon_proposer-IsValidated unknown w h =
      elim (Option-cases (proto.unmarshal_recipients unknown)) [
        | inl malformed ↦ absurd (ground arith)
        | inr (ps, decoded) ↦
            let indices = map (λ (p : FeeRecipientContainer). format_uint p.validator_index) ps in
            elim (Option-cases (get_validator_pubkey x.pubkeys x.node indices w.cl).0) [
              | inl failed ↦ absurd (ground arith)
              | inr (pubkeys, resolved) ↦
                  let w' = record w {
                    cl = (get_validator_pubkey x.pubkeys x.node indices w.cl).1;
                    m = "prepare_beacon_proposer" ∷ w.m;
                  } in
                  let passed =
                    for_each-Passed x l (check_container x proto pubkeys node)
                      (IsContained x pubkeys node) (check_container-Passed pubkeys) ps w'
                      (ground arith) in
                  record {
                    recipients = ps;
                    decoded = decoded;
                    pubkeys = pubkeys;
                    resolved = resolved;
                    contained = passed.held;
                  }
            ]
      ]

  -- What a message that validateRegisterValidators accepts holds.
  pub record IsValidatedRegistration (unknown : Bytes) (w : World S B) : Type 0 where
    pub registrations : List (Option ValidatorRegistration)
    pub decoded : proto.unmarshal_registrations unknown ≡ some registrations
    pub signed : All (λ r. IsSigned x node r (l.contents w.el.cache)) registrations

  -- If validateRegisterValidators accepts a message, then it decodes, and each of its registrations
  -- is there, has a public key of at least 48 bytes, and the first 48 are the key of nobody's
  -- minipool, or that of a minipool of the node while the node has no record, or that of a minipool
  -- of the node with the fee recipient that the node has to use. This holds whatever faults the
  -- cache's storage has, if each shows as an error.
  pub validate_register_validators-IsValidated :
      (unknown : Bytes) (w : World S B)
      → (validate_register_validators x proto unknown node w).0 ≡ ok tt
      → IsValidatedRegistration unknown w
  unfolding validate_register_validators
  validate_register_validators-IsValidated unknown w h =
      elim (Option-cases (proto.unmarshal_registrations unknown)) [
        | inl malformed ↦ absurd (ground arith)
        | inr (rs, decoded) ↦
            let w' = record w { m = "register_validator" ∷ w.m } in
            let passed =
              for_each-Passed x l (check_signed x proto node) (IsSigned x node) check_signed-Passed
                rs w' (ground arith) in
            record { registrations = rs; decoded = decoded; signed = passed.held }
      ]
