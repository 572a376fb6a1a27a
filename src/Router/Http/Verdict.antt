-- ===== src/Router/Http/Verdict.antt =====
-- The answers of the guarded HTTP endpoints, computed from the cache's contents alone.
use rescue_proxy.Prelude.{
  Bytes, Bool, true, false, Option, none, some, ◌≡◌, arith, Option-cases, inl, inr, nat_eq, list_eq,
  if◌then◌else◌,
}
use rescue_proxy.Prelude.Map
use rescue_proxy.Prelude.Map.{Map}
use rescue_proxy.Prelude.Hex.{equal_fold}
use rescue_proxy.Cache.{address_eq, Address, Pubkey, Contents, CacheLaws}
use rescue_proxy.Execution.Recipient.{recipient_of}
use rescue_proxy.Execution.Recipient.Laws.{validator_fee_recipient-Answers}
use rescue_proxy.Router.Auth.{bad_request_400, forbidden_403, conflict_409, internal_500}
use rescue_proxy.Router.World.{World, Services}
use rescue_proxy.Router.Judged.{refused_by, Judged}
use rescue_proxy.Router.Http.{
  Proposer, RegisterValidatorMessage, Codec, Stop, reply, trim_0x, check_proposer,
  check_registration,
}

module _ {S B : Type 0} (x : Services S B) where
  -- An expected address, and the text that names one.
  abbrev pub judge_fee : Address → Bytes → Option Stop
  judge_fee address text =
      if equal_fold (x.address_string address) text then none else some (reply conflict_409)

  abbrev pub judge_owned : Option Address × Bool → Bytes → Option Stop
  judge_owned (none, unowned) text = some (reply forbidden_403)
  judge_owned (some address, unowned) text = judge_fee address text

  abbrev pub judge_any : Option Address × Bool → Bytes → Option Stop
  judge_any (none, true) text = some (reply forbidden_403)
  judge_any (none, false) text = none
  judge_any (some address, unowned) text = judge_fee address text

  abbrev pub judge_found : Address → Contents → Option Pubkey → Bytes → Option Stop
  judge_found node v none text = some (reply bad_request_400)
  judge_found node v (some p) text = judge_owned (recipient_of x.contracts v p (some node)) text

  abbrev pub judge_proposer : Map Bytes Pubkey → Address → Contents → Proposer → Option Stop
  judge_proposer pubkeys node v p =
      judge_found node v (Map.get p.validator_index pubkeys) p.fee_recipient

  abbrev pub judge_parsed : Address → Contents → Option Pubkey → Bytes → Option Stop
  judge_parsed node v none text = some (reply internal_500)
  judge_parsed node v (some p) text = judge_any (recipient_of x.contracts v p (some node)) text

  abbrev pub judge_registration :
      Codec → Address → Contents → RegisterValidatorMessage → Option Stop
  judge_registration codec node v r =
      judge_parsed node v (codec.hex_to_validator_pubkey (trim_0x r.pubkey)) r.fee_recipient

  module _ (l : CacheLaws x.cache) (codec : Codec) where
    pub check_proposer-Judged :
        (pubkeys : Map Bytes Pubkey) (node : Address) (p : Proposer) (w : World S B)
        → l.healthy w.el.cache ≡ true
        → Judged l w
            (refused_by tt (judge_proposer pubkeys node (l.contents w.el.cache) p))
            (check_proposer x codec pubkeys node p w)
    unfolding check_proposer
    check_proposer-Judged pubkeys node p w h =
        elim (Option-cases (Map.get p.validator_index pubkeys)) [
          | inl missing ↦ ground arith
          | inr (pubkey, found) ↦
              let a = validator_fee_recipient-Answers l x.contracts pubkey (some node) w.el h in
              ground (arith, a)
        ]

    pub check_registration-Judged :
        (node : Address) (r : RegisterValidatorMessage) (w : World S B)
        → l.healthy w.el.cache ≡ true
        → Judged l w
            (refused_by tt (judge_registration codec node (l.contents w.el.cache) r))
            (check_registration x codec node r w)
    unfolding check_registration
    check_registration-Judged node r w h =
        elim (Option-cases (codec.hex_to_validator_pubkey (trim_0x r.pubkey))) [
          | inl missing ↦ ground arith
          | inr (pubkey, found) ↦
              let a = validator_fee_recipient-Answers l x.contracts pubkey (some node) w.el h in
              ground (arith, a)
        ]
