-- ===== src/Router/Http/Answers.antt =====
-- The guarded endpoints answer every request, by the contents of the cache and by nothing else.
use rescue_proxy.Prelude.{
  Bytes, true, Option, none, some, List, ◌∷◌, ◌≡◌, ◌↔◌, refl, arith, Option-cases, inl, inr, nat_eq,
  list_eq, ◌∙◌,
}
use rescue_proxy.Prelude.Map.{Map}
use rescue_proxy.Prelude.Exec.{ok}
use rescue_proxy.Cache.{address_eq, Address, Pubkey, Contents, CacheLaws}
use rescue_proxy.Consensus.{get_validator_pubkey}
use rescue_proxy.Execution.Recipient.{expected_recipient}
use rescue_proxy.Router.Auth.{bad_request_400, internal_500}
use rescue_proxy.Router.World.{World, Services}
use rescue_proxy.Router.Judged.{
  refused_by, first_refusal, first_refusal-none, Judged, for_each-Judged,
}
use rescue_proxy.Router.Entitled.{
  IsHexString, IsEntitled, recipient_of-IsEntitled, recipient_of-IsUnknown, equal_fold_iff,
}
use rescue_proxy.Router.Http.{
  Proposer, RegisterValidatorMessage, Codec, Request, Body, content, broken, Stop, reply,
  check_proposer, check_registration, prepare_beacon_proposer, register_validator,
}
use rescue_proxy.Router.Http.Verdict.{
  judge_proposer, judge_registration, check_proposer-Judged, check_registration-Judged,
}
use rescue_proxy.Router.Http.Guarded.{Accepted, Registered}
use rescue_proxy.Router.Http.Endpoints.{
  clone_request_body_content, indices_of, IsGuarded, prepare_beacon_proposer-IsGuarded,
  IsGuardedRegistration, register_validator-IsGuarded,
}

module _ {S B : Type 0} (x : Services S B) (codec : Codec) where
  abbrev pub looked_up_verdict :
      Option (Map Bytes Pubkey) → Option Bytes → Contents → List Proposer → Option Stop
  looked_up_verdict none node_id v ps = some (reply internal_500)
  looked_up_verdict (some pubkeys) none v ps = some (reply internal_500)
  looked_up_verdict (some pubkeys) (some n) v ps =
      first_refusal (judge_proposer x pubkeys (x.bytes_to_address n) v) ps

  abbrev pub proposers_verdict :
      Option (List Proposer) → Option Bytes → World S B → Contents → Option Stop
  proposers_verdict none node_id w v = some (reply bad_request_400)
  proposers_verdict (some ps) node_id w v =
      looked_up_verdict (get_validator_pubkey x.pubkeys x.node (indices_of ps) w.cl).0 node_id v ps

  -- What stops a prepare_beacon_proposer request, if anything.
  abbrev pub proposal_verdict : Body → Option Bytes → World S B → Contents → Option Stop
  proposal_verdict broken node_id w v = some (reply internal_500)
  proposal_verdict (content b) node_id w v =
      proposers_verdict (codec.decode_proposers b) node_id w v

  abbrev pub validators_verdict :
      Option (List RegisterValidatorMessage) → Option Bytes → Contents → Option Stop
  validators_verdict none node_id v = some (reply bad_request_400)
  validators_verdict (some vs) none v = some (reply internal_500)
  validators_verdict (some vs) (some n) v =
      first_refusal (judge_registration x codec (x.bytes_to_address n) v) vs

  -- What stops a register_validator request, if anything.
  abbrev pub registration_verdict : Body → Option Bytes → Contents → Option Stop
  registration_verdict broken node_id v = some (reply internal_500)
  registration_verdict (content b) node_id v =
      validators_verdict (codec.decode_validators b) node_id v

  module _ (l : CacheLaws x.cache) (r : Request) (w : World S B)
      (healthy : l.healthy w.el.cache ≡ true) where
    -- On a healthy cache prepare_beacon_proposer answers by `proposal_verdict`: 500 if the body
    -- cannot be read, 400 if it does not decode, 500 if the beacon node fails or there is no node
    -- in the context, else the status of the first proposer that is refused (400 for an index with
    -- no key, 403 for a key that is not the node's, 409 for another fee recipient), else the
    -- request is handed on. It never panics, keeps the cache's contents and leaves it healthy.
    pub prepare_beacon_proposer-Judged :
        Judged l w
          (refused_by r (proposal_verdict r.body r.node w (l.contents w.el.cache)))
          (prepare_beacon_proposer x codec r w)
    unfolding prepare_beacon_proposer
    prepare_beacon_proposer-Judged = elim (clone_request_body_content r r.body refl) [
      | inr (b, failed) ↦ ground arith
      | inl (b, body, cloned) ↦ elim (Option-cases (codec.decode_proposers b)) [
        | inl malformed ↦ ground arith
        | inr (ps, decoded) ↦
            elim (Option-cases (get_validator_pubkey x.pubkeys x.node (indices_of ps) w.cl).0) [
              | inl failed ↦ ground arith
              | inr (pubkeys, resolved) ↦ elim (Option-cases r.node) [
                | inl anonymous ↦ ground arith
                | inr (n, authenticated) ↦
                    let node = x.bytes_to_address n in
                    let w' = record w {
                      cl = (get_validator_pubkey x.pubkeys x.node (indices_of ps) w.cl).1;
                      m = "prepare_beacon_proposer" ∷ w.m;
                    } in
                    let loop =
                      for_each-Judged l (check_proposer x codec pubkeys node)
                        (judge_proposer x pubkeys node)
                        (λ p u h. check_proposer-Judged x l codec pubkeys node p u h) ps w'
                        healthy in
                    ground (arith, loop)
              ]
            ]
      ]
    ]

    -- On a healthy cache register_validator answers by `registration_verdict`: 500 if the body
    -- cannot be read, 400 if it does not decode, 500 if there is no node in the context, else the
    -- status of the first registration that is refused (500 for a key that does not parse, 403 for
    -- another node's minipool, 409 for another fee recipient), else the request is handed on. It
    -- never panics, keeps the cache's contents and leaves it healthy.
    pub register_validator-Judged :
        Judged l w
          (refused_by r (registration_verdict r.body r.node (l.contents w.el.cache)))
          (register_validator x codec r w)
    unfolding register_validator
    register_validator-Judged = elim (clone_request_body_content r r.body refl) [
      | inr (b, failed) ↦ ground arith
      | inl (b, body, cloned) ↦ elim (Option-cases (codec.decode_validators b)) [
        | inl malformed ↦ ground arith
        | inr (vs, decoded) ↦ elim (Option-cases r.node) [
          | inl anonymous ↦ ground arith
          | inr (n, authenticated) ↦
              let node = x.bytes_to_address n in
              let w' = record w { m = "register_validator" ∷ w.m } in
              let loop =
                for_each-Judged l (check_registration x codec node)
                  (judge_registration x codec node)
                  (λ v u h. check_registration-Judged x l codec node v u h) vs w' healthy in
              ground (arith, loop)
        ]
      ]
    ]

    module _ (law : IsHexString x.address_string) where
      -- An entitled proposer is not refused.
      judge_Accepted :
          (pubkeys : Map Bytes Pubkey) (node : Address) (v : Contents) (p : Proposer)
          → Accepted x pubkeys node p v
          → judge_proposer x pubkeys node v p ≡ none
      judge_Accepted pubkeys node v p (pubkey, found, e) =
          let exact : IsEntitled x.contracts v node pubkey
              (λ b. b ≡ expected_recipient x.contracts e.info) =
            record { info = e.info; owned = e.owned; known = e.known; named = refl } in
          rw (
            found,
            recipient_of-IsEntitled x.contracts v node pubkey
                (expected_recipient x.contracts e.info) exact,
            (equal_fold_iff x.address_string law (expected_recipient x.contracts e.info)
                  p.fee_recipient).1
                e.named,
          )

      judge_Registered :
          (node : Address) (v : Contents) (m : RegisterValidatorMessage)
          → Registered x codec node m v
          → judge_registration x codec node v m ≡ none
      judge_Registered node v m (pubkey, parsed, inl unknown) =
          rw (parsed, recipient_of-IsUnknown x.contracts v node pubkey unknown)
      judge_Registered node v m (pubkey, parsed, inr e) =
          let exact : IsEntitled x.contracts v node pubkey
              (λ b. b ≡ expected_recipient x.contracts e.info) =
            record { info = e.info; owned = e.owned; known = e.known; named = refl } in
          rw (
            parsed,
            recipient_of-IsEntitled x.contracts v node pubkey
                (expected_recipient x.contracts e.info) exact,
            (equal_fold_iff x.address_string law (expected_recipient x.contracts e.info)
                  m.fee_recipient).1
                e.named,
          )

      guarded_complete :
          IsGuarded x l law codec r w r → (prepare_beacon_proposer x codec r w).0 ≡ ok r
      guarded_complete g =
          let v = l.contents w.el.cache in
          let node = x.bytes_to_address g.node_id in
          let fine =
            first_refusal-none (judge_proposer x g.pubkeys node v)
              (λ p. Accepted x g.pubkeys node p v) (judge_Accepted g.pubkeys node v) g.proposers
              g.accepted in
          prepare_beacon_proposer-Judged.result
          ∙ rw (g.body, g.decoded, g.resolved, g.authenticated, fine)

      -- On a healthy cache prepare_beacon_proposer hands a request on as it came exactly if it
      -- passes the guard: a body that decodes, from an authenticated node, each index resolved to a
      -- minipool of that node, each fee recipient the one that the node has to use.
      pub prepare_beacon_proposer_iff :
          ((prepare_beacon_proposer x codec r w).0 ≡ ok r) ↔ IsGuarded x l law codec r w r
      prepare_beacon_proposer_iff =
          (prepare_beacon_proposer-IsGuarded x l law codec r w r, guarded_complete)

      registered_complete :
          IsGuardedRegistration x l law codec r w r → (register_validator x codec r w).0 ≡ ok r
      registered_complete g =
          let v = l.contents w.el.cache in
          let node = x.bytes_to_address g.node_id in
          let fine =
            first_refusal-none (judge_registration x codec node v)
              (λ m. Registered x codec node m v) (judge_Registered node v) g.validators
              g.registered in
          register_validator-Judged.result ∙ rw (g.body, g.decoded, g.authenticated, fine)

      -- On a healthy cache register_validator hands a request on as it came exactly if it passes
      -- the guard: a body that decodes, from an authenticated node, each key parsed, and each
      -- either not a known node's minipool or the node's own with the fee recipient that it has to
      -- use.
      pub register_validator_iff :
          ((register_validator x codec r w).0 ≡ ok r) ↔ IsGuardedRegistration x l law codec r w r
      register_validator_iff =
          (register_validator-IsGuarded x l law codec r w r, registered_complete)
