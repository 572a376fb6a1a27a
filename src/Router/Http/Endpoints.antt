-- ===== src/Router/Http/Endpoints.antt =====
-- The guarded endpoints as a whole: what a request that is proxied has passed.
use rescue_proxy.Prelude.{
  Bytes, none, some, List, ◌∷◌, ◌≡◌, ◌⊎◌, refl, arith, Option-cases, inl, inr, nat_eq, list_eq, map,
  All,
}
use rescue_proxy.Prelude.Map.{Map}
use rescue_proxy.Prelude.Exec.{ok}
use rescue_proxy.Cache.{address_eq, Pubkey, CacheLaws}
use rescue_proxy.Consensus.{get_validator_pubkey}
use rescue_proxy.Router.World.{World, Services}
use rescue_proxy.Router.Entitled.{IsHexString}
use rescue_proxy.Router.Http.{
  Proposer, RegisterValidatorMessage, Codec, Request, Body, content, broken, clone_request_body,
  check_proposer, check_registration, prepare_beacon_proposer, register_validator,
}
use rescue_proxy.Router.Http.Guarded.{
  Accepted, Registered, for_each-Passed, check_proposer-Passed, check_registration-Passed,
}

pub clone_request_body_content :
    (r : Request) (body : Body)
    → r.body ≡ body
    → ((b : Bytes) × (body ≡ content b) × (clone_request_body r ≡ some (b, r)))
      ⊎ ((body ≡ broken) × (clone_request_body r ≡ none))
unfolding clone_request_body
clone_request_body_content r (content b) e = inl (b, refl, ground arith)
clone_request_body_content r broken e = inr (refl, ground arith)

abbrev pub indices_of : List Proposer → List Bytes
indices_of = map (λ (p : Proposer). p.validator_index)

module _ {S B : Type 0} (x : Services S B) (l : CacheLaws x.cache)
    (law : IsHexString x.address_string) (codec : Codec) (r : Request) (w : World S B) where
  -- What a proxied prepare_beacon_proposer request has passed.
  pub record IsGuarded (r' : Request) : Type 0 where
    pub unchanged : r' ≡ r
    pub bytes : Bytes
    pub body : r.body ≡ content bytes
    pub node_id : Bytes
    pub authenticated : r.node ≡ some node_id
    pub proposers : List Proposer
    pub decoded : codec.decode_proposers bytes ≡ some proposers
    pub pubkeys : Map Bytes Pubkey
    pub resolved :
        (get_validator_pubkey x.pubkeys x.node (indices_of proposers) w.cl).0 ≡ some pubkeys
    pub accepted :
        All
          (λ p. Accepted x pubkeys (x.bytes_to_address node_id) p (l.contents w.el.cache))
          proposers

  -- If prepare_beacon_proposer hands a request on, then it is the request as it came, its body
  -- included, from an authenticated node; the body decodes, every index in it was resolved to a
  -- public key, every key is that of a minipool of the node, and every fee recipient names the
  -- smoothing pool if the node is in it and the node's fee distributor if not. This holds whatever
  -- faults the cache's storage has, if each shows as an error.
  pub prepare_beacon_proposer-IsGuarded :
      (r' : Request) → (prepare_beacon_proposer x codec r w).0 ≡ ok r' → IsGuarded r'
  unfolding prepare_beacon_proposer
  prepare_beacon_proposer-IsGuarded r' h = elim (clone_request_body_content r r.body refl) [
    | inr (b, failed) ↦ absurd (ground arith)
    | inl (b, body, cloned) ↦ elim (Option-cases (codec.decode_proposers b)) [
      | inl malformed ↦ absurd (ground arith)
      | inr (ps, decoded) ↦
          elim (Option-cases (get_validator_pubkey x.pubkeys x.node (indices_of ps) w.cl).0) [
            | inl failed ↦ absurd (ground arith)
            | inr (pubkeys, resolved) ↦ elim (Option-cases r.node) [
              | inl anonymous ↦ absurd (ground arith)
              | inr (n, authenticated) ↦
                  let node = x.bytes_to_address n in
                  let w' = record w {
                    cl = (get_validator_pubkey x.pubkeys x.node (indices_of ps) w.cl).1;
                    m = "prepare_beacon_proposer" ∷ w.m;
                  } in
                  let passed =
                    for_each-Passed x l (check_proposer x codec pubkeys node)
                      (Accepted x pubkeys node)
                      (λ p u. check_proposer-Passed x l law codec node pubkeys p u) ps w'
                      (ground arith) in
                  record {
                    unchanged = ground arith;
                    bytes = b;
                    body = body;
                    node_id = n;
                    authenticated = authenticated;
                    proposers = ps;
                    decoded = decoded;
                    pubkeys = pubkeys;
                    resolved = resolved;
                    accepted = passed.held;
                  }
            ]
          ]
    ]
  ]

  -- What a proxied register_validator request has passed.
  pub record IsGuardedRegistration (r' : Request) : Type 0 where
    pub unchanged : r' ≡ r
    pub bytes : Bytes
    pub body : r.body ≡ content bytes
    pub node_id : Bytes
    pub authenticated : r.node ≡ some node_id
    pub validators : List RegisterValidatorMessage
    pub decoded : codec.decode_validators bytes ≡ some validators
    pub registered :
        All
          (λ v. Registered x codec (x.bytes_to_address node_id) v (l.contents w.el.cache))
          validators

  -- If register_validator hands a request on, then it is the request as it came, from an
  -- authenticated node; the body decodes, and every public key in it parses and is either in
  -- nobody's minipools, or that of a minipool of the node while the node has no record, or that of
  -- a minipool of the node with the fee recipient that the node has to use. This holds whatever
  -- faults the cache's storage has, if each shows as an error.
  pub register_validator-IsGuarded :
      (r' : Request) → (register_validator x codec r w).0 ≡ ok r' → IsGuardedRegistration r'
  unfolding register_validator
  register_validator-IsGuarded r' h = elim (clone_request_body_content r r.body refl) [
    | inr (b, failed) ↦ absurd (ground arith)
    | inl (b, body, cloned) ↦ elim (Option-cases (codec.decode_validators b)) [
      | inl malformed ↦ absurd (ground arith)
      | inr (vs, decoded) ↦ elim (Option-cases r.node) [
        | inl anonymous ↦ absurd (ground arith)
        | inr (n, authenticated) ↦
            let node = x.bytes_to_address n in
            let w' = record w { m = "register_validator" ∷ w.m } in
            let passed =
              for_each-Passed x l (check_registration x codec node) (Registered x codec node)
                (λ v u. check_registration-Passed x l law codec node v u) vs w' (ground arith) in
            record {
              unchanged = ground arith;
              bytes = b;
              body = body;
              node_id = n;
              authenticated = authenticated;
              validators = vs;
              decoded = decoded;
              registered = passed.held;
            }
      ]
    ]
  ]
