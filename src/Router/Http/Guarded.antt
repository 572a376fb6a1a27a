-- ===== src/Router/Http/Guarded.antt =====
-- What the guarded HTTP endpoints let through.
use rescue_proxy.Prelude.{
  Bytes, true, false, none, some, List, [], ◌∷◌, ◌≡◌, ◌⊎◌, refl, arith, Option-cases, inl, inr,
  nat_eq, list_eq, All, subst, sym,
}
use rescue_proxy.Prelude.Map
use rescue_proxy.Prelude.Map.{Map}
use rescue_proxy.Prelude.Hex.{equal_fold}
use rescue_proxy.Prelude.Exec.{Exec, Result-cases, ok}
use rescue_proxy.Cache.{address_eq, Address, Pubkey, Contents, CacheLaws}
use rescue_proxy.Execution.Recipient.{validator_fee_recipient}
use rescue_proxy.Execution.Recipient.Laws.{validator_fee_recipient_sound}
use rescue_proxy.Router.World.{World, Services, for_each}
use rescue_proxy.Router.Entitled.{
  Names, IsHexString, IsEntitled, IsUnknown, recipient_of-some, recipient_of-none, equal_fold_iff,
}
use rescue_proxy.Router.Http.{
  Proposer, RegisterValidatorMessage, Codec, trim_0x, check_proposer, check_registration,
}

module _ {S B : Type 0} (x : Services S B) (l : CacheLaws x.cache) where
  -- A check that passed: `P` held of the contents, which the check kept.
  pub record Passed (P : Contents → Type 0) (w w' : World S B) : Type 0 where
    pub held : P (l.contents w.el.cache)
    pub kept : l.contents w'.el.cache ≡ l.contents w.el.cache

  -- A loop that ends without a refusal has passed every item.
  pub for_each-Passed :
      {A E : Type 0} (body : A → Exec (World S B) E (Unit {0})) (P : A → Contents → Type 0)
      → ((a : A) (w : World S B) → (body a w).0 ≡ ok tt → Passed (P a) w (body a w).1)
      → (items : List A) (w : World S B) → (for_each body items w).0 ≡ ok tt
      → Passed (λ v. All (λ a. P a v) items) w (for_each body items w).1
  unfolding for_each
  for_each-Passed body P step [] w h = record { held = tt; kept = refl }
  for_each-Passed body P step (a ∷ items) w h = elim (Result-cases (body a w).0) [
    | inl (u, passed) ↦
        let here = step a w passed in
        let later = for_each-Passed body P step items (body a w).1 (ground arith) in
        record {
          held = (here.held, subst (λ v. All (λ b. P b v) items) here.kept later.held);
          kept = ground arith;
        }
    | inr (e, stopped) ↦ absurd (ground arith)
  ]

-- A proposer whose index has a public key, that of a minipool of the node, and who names the address
-- that the node has to use.
abbrev pub Accepted :
    {S B : Type 0} → Services S B → Map Bytes Pubkey → Address → Proposer → Contents → Type 0
Accepted x pubkeys node p v =
    (pubkey : Pubkey) × (Map.get p.validator_index pubkeys ≡ some pubkey)
    × IsEntitled x.contracts v node pubkey (Names p.fee_recipient)

-- A registration whose public key is in nobody's minipools, or that of a node that is not known, or
-- that is entitled as a proposer is.
abbrev pub Registered :
    {S B : Type 0} → Services S B → Codec → Address → RegisterValidatorMessage → Contents → Type 0
Registered x codec node r v =
    (pubkey : Pubkey) × (codec.hex_to_validator_pubkey (trim_0x r.pubkey) ≡ some pubkey)
    × (IsUnknown v node pubkey ⊎ IsEntitled x.contracts v node pubkey (Names r.fee_recipient))

module _ {S B : Type 0} (x : Services S B) (l : CacheLaws x.cache)
    (law : IsHexString x.address_string) (codec : Codec) (node : Address) where
  -- From the address that was expected to the text that named it.
  named :
      (v : Contents) (pubkey : Pubkey) (a : Address) (text : Bytes)
      → equal_fold (x.address_string a) text ≡ true
      → IsEntitled x.contracts v node pubkey (λ b. b ≡ a)
      → IsEntitled x.contracts v node pubkey (Names text)
  named v pubkey a text same h = record {
    info = h.info;
    owned = h.owned;
    known = h.known;
    named = rw h.named ((equal_fold_iff x.address_string law a text).0 same);
  }

  pub check_proposer-Passed :
      (pubkeys : Map Bytes Pubkey) (p : Proposer) (w : World S B)
      → (check_proposer x codec pubkeys node p w).0 ≡ ok tt
      → Passed x l (Accepted x pubkeys node p) w (check_proposer x codec pubkeys node p w).1
  unfolding check_proposer
  check_proposer-Passed pubkeys p w h = elim (Option-cases (Map.get p.validator_index pubkeys)) [
    | inl missing ↦ absurd (ground arith)
    | inr (pubkey, found) ↦
        elim (Result-cases
          (validator_fee_recipient x.cache x.contracts pubkey (some node) w.el).0) [
            | inl ((some a, unowned), returned) ↦
                let (right, kept) =
                  validator_fee_recipient_sound l x.contracts pubkey (some node) w.el _ returned in
                record {
                  held = (
                    pubkey,
                    found,
                    named _ pubkey a p.fee_recipient (ground arith)
                        (recipient_of-some x.contracts _ node pubkey a unowned (sym right)),
                  );
                  kept = ground arith;
                }
            | inl ((none, unowned), returned) ↦ absurd (ground arith)
            | inr (e, panic) ↦ absurd (ground arith)
          ]
  ]

  pub check_registration-Passed :
      (r : RegisterValidatorMessage) (w : World S B)
      → (check_registration x codec node r w).0 ≡ ok tt
      → Passed x l (Registered x codec node r) w (check_registration x codec node r w).1
  unfolding check_registration
  check_registration-Passed r w h =
      elim (Option-cases (codec.hex_to_validator_pubkey (trim_0x r.pubkey))) [
        | inl missing ↦ absurd (ground arith)
        | inr (pubkey, found) ↦
            elim (Result-cases
              (validator_fee_recipient x.cache x.contracts pubkey (some node) w.el).0) [
                | inl ((some a, unowned), returned) ↦
                    let (right, kept) =
                      validator_fee_recipient_sound l x.contracts pubkey (some node) w.el _
                        returned in
                    record {
                      held = (
                        pubkey,
                        found,
                        inr (
                            named _ pubkey a r.fee_recipient (ground arith)
                              (recipient_of-some x.contracts _ node pubkey a unowned (sym right))),
                      );
                      kept = ground arith;
                    }
                | inl ((none, false), returned) ↦
                    let (right, kept) =
                      validator_fee_recipient_sound l x.contracts pubkey (some node) w.el _
                        returned in
                    record {
                      held = (
                        pubkey,
                        found,
                        inl (recipient_of-none x.contracts _ node pubkey (sym right)),
                      );
                      kept = ground arith;
                    }
                | inl ((none, true), returned) ↦ absurd (ground arith)
                | inr (e, panic) ↦ absurd (ground arith)
              ]
      ]
