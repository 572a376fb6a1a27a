-- ===== src/Router/Grpc/Opened.antt =====
-- router/grpc.go, `payloadInterceptor`: which streams it opens, and for whom.
use rescue_proxy.Prelude.{
  Bytes, codes, true, Option, none, some, List, [], ◌∷◌, ◌≡◌, ◌⊎◌, refl, arith, Option-cases,
  Bool-cases, inl, inr, nat_eq, list_eq, ◌==◌, eq_of_beq, get_elem?,
}
use rescue_proxy.Prelude.Tests.{list_beq}
use rescue_proxy.Prelude.Map
use rescue_proxy.Prelude.Map.{Map}
use rescue_proxy.Prelude.Int.{ℤ, pos, ◌≤ℤ◌, ◌<ℤ◌}
use rescue_proxy.Prelude.Exec.{Result-cases, ok}
use rescue_proxy.Cache.{address_eq, Address}
use rescue_proxy.Router.Auth.{authenticate, Credential, max_duration}
use rescue_proxy.Router.Auth.Laws.{IsAdmitted, authenticate_iff}
use rescue_proxy.Router.World.{World, Services}
use rescue_proxy.Router.Grpc.{Protobuf}
use rescue_proxy.Router.Grpc.Interceptor.{
  ValidationCb, ServerStream, plain, guarded, split, services, is_service, msg_cbs, is_exempt,
  values, node_of_header, stream_for, caller, payload_interceptor,
}

abbrev pub stream_of : Address → Option ValidationCb → ServerStream
stream_of node none = plain
stream_of node (some cb) = guarded cb node

module _ {S B : Type 0} (x : Services S B) (now : ℤ) where
  -- The header's first value is user and password around one colon, with an admitted credential of
  -- the node.
  pub record HasCredential (md : Map Bytes (List Bytes)) (node : Address) : Type 0 where
    pub header : Bytes
    pub others : List Bytes
    pub given : Map.get (codes "rprnauth") md ≡ some (header ∷ others)
    pub username : Bytes
    pub password : Bytes
    pub parts : split b':' header ≡ username ∷ password ∷ []
    pub credential : Credential
    pub admitted : IsAdmitted x.auth now username password credential
    pub is_node : node ≡ x.bytes_to_address credential.node_id

  -- A stream that is opened: the service is known, and either the method is exempt and the stream does
  -- not validate, or the caller has a credential, and the stream is the one for the method and the
  -- credential's node.
  pub record IsOpened (incoming : Option (Map Bytes (List Bytes))) (full_method : Bytes)
      (stream : ServerStream) : Type 0 where
    pub service : Bytes
    pub has_service : get_elem? (split b'/' full_method) 1 ≡ some service
    pub is_known : is_service service services ≡ true
    pub method : Bytes
    pub has_method : get_elem? (split b'/' full_method) 2 ≡ some method
    pub md : Map Bytes (List Bytes)
    pub has_metadata : incoming ≡ some md
    pub opened :
        ((is_exempt method ≡ true) × (stream ≡ plain))
        ⊎ ((node : Address) × HasCredential md node
            × (stream ≡ stream_of node (Map.get method msg_cbs)))

  exempt_unguarded :
      (method : Bytes)
      → is_exempt method ≡ true
      → ◌≡◌ {A = Option ValidationCb} (Map.get method msg_cbs) none
  unfolding is_exempt
  exempt_unguarded method h = elim (Bool-cases (method == codes "DomainData")) [
    | inl domain ↦ rw (eq_of_beq method _ domain) (unfold Map.get list_beq in refl)
    | inr other ↦
        rw (eq_of_beq method (codes "SubscribeCommitteeSubnets") (ground arith))
          (unfold Map.get list_beq in refl)
  ]

  module _ (proto : Protobuf)
      (sane : (pos 0 ≤ℤ x.auth.validity_window)
        × (x.auth.validity_window <ℤ pos max_duration)) where
    of_parts :
        (md : Map Bytes (List Bytes)) (w : World S B) (node : Address) (header : Bytes)
        (others : List Bytes)
        → Map.get (codes "rprnauth") md ≡ some (header ∷ others)
        → (node_of_header x proto now (header ∷ others) w).0 ≡ ok node
        → (parts : List Bytes) → split b':' header ≡ parts
        → HasCredential md node
    unfolding node_of_header
    of_parts md w node header others given h [] e = absurd (ground arith)
    of_parts md w node header others given h (u ∷ []) e = absurd (ground arith)
    of_parts md w node header others given h (u ∷ p ∷ q ∷ more) e = absurd (ground arith)
    of_parts md w node header others given h (username ∷ password ∷ []) e =
        elim (Result-cases (authenticate x.auth now username password w.auth).0) [
          | inr (failure, refused) ↦ absurd (ground arith)
          | inl (ac, accepted) ↦ record {
            header = header;
            others = others;
            given = given;
            username = username;
            password = password;
            parts = e;
            credential = ac;
            admitted = (authenticate_iff x.auth sane now username password w.auth ac).0 accepted;
            is_node = ground arith;
          }
        ]

    header-HasCredential :
        (md : Map Bytes (List Bytes)) (w : World S B) (node : Address)
        → (node_of_header x proto now (values (Map.get (codes "rprnauth") md)) w).0 ≡ ok node
        → HasCredential md node
    unfolding node_of_header
    header-HasCredential md w node h = elim (Option-cases (Map.get (codes "rprnauth") md)) [
      | inl missing ↦ absurd (ground arith)
      | inr ([], given) ↦ absurd (ground arith)
      | inr (header ∷ others, given) ↦
          of_parts md w node header others given (rw given at h) (split b':' header) refl
    ]

    -- The last two steps: whose call it is, and the stream for its method.
    step-opened :
        (md : Map Bytes (List Bytes)) (w : World S B) (method : Bytes) (node : Address)
        (stream : ServerStream)
        → (caller x proto now md method w).0 ≡ ok node
        → stream ≡ stream_of node (Map.get method msg_cbs)
        → ((is_exempt method ≡ true) × (stream ≡ plain))
          ⊎ ((n : Address) × HasCredential md n × (stream ≡ stream_of n (Map.get method msg_cbs)))
    unfolding caller
    step-opened md w method node stream h e = elim (Bool-cases (is_exempt method)) [
      | inl exempt ↦ inl (exempt, ground (arith, exempt_unguarded method exempt))
      | inr needed ↦ inr (node, header-HasCredential md w node (rw needed at h), e)
    ]

    -- A stream is opened only for one of the three services, with metadata. It is opened for DomainData
    -- and SubscribeCommitteeSubnets, which are not validated, or for a caller whose "rprnauth" header is
    -- an admitted credential; then the two methods that set fee recipients get a stream that validates
    -- for the credential's node. This is for a validity window that is neither negative nor the longest
    -- duration.
    pub payload_interceptor-IsOpened :
        (incoming : Option (Map Bytes (List Bytes))) (full_method : Bytes) (w : World S B)
        (stream : ServerStream)
        → (payload_interceptor x proto now incoming full_method w).0 ≡ ok stream
        → IsOpened incoming full_method stream
    unfolding payload_interceptor stream_for
    payload_interceptor-IsOpened incoming full_method w stream h =
        elim (Option-cases (get_elem? (split b'/' full_method) 1)) [
          | inl short ↦ absurd (ground arith)
          | inr (service, has_service) ↦ elim (Bool-cases (is_service service services)) [
            | inr unknown ↦ absurd (ground arith)
            | inl known ↦ elim (Option-cases incoming) [
              | inl missing ↦ absurd (ground arith)
              | inr (md, has_metadata) ↦
                  elim (Option-cases (get_elem? (split b'/' full_method) 2)) [
                    | inl short ↦ absurd (ground arith)
                    | inr (method, has_method) ↦
                        elim (Result-cases (caller x proto now md method w).0) [
                          | inr (e, refused) ↦ absurd (ground arith)
                          | inl (node, called) ↦ record {
                            service = service;
                            has_service = has_service;
                            is_known = known;
                            method = method;
                            has_method = has_method;
                            md = md;
                            has_metadata = has_metadata;
                            opened =
                                step-opened md w method node stream called
                                  (elim (Option-cases (Map.get method msg_cbs)) [
                                    | inl unguarded ↦ ground arith
                                    | inr (cb, is_guarded) ↦ ground arith
                                  ]);
                          }
                        ]
                  ]
            ]
          ]
        ]
