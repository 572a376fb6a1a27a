-- ===== src/Router/Grpc/Interceptor.antt =====
-- router/grpc.go, `payloadInterceptor` and the stream that it hands to the proxy. The proxy, and the
-- stream beneath, are parameters.
use rescue_proxy.Prelude.{
  ℕ, Bytes, codes, Bool, false, Option, none, some, List, [], ◌∷◌, ◌==◌, ◌||◌, nat_eq, list_eq,
  if◌then◌else◌, get_elem?, replicate,
}
use rescue_proxy.Prelude.Map
use rescue_proxy.Prelude.Map.{Map}
use rescue_proxy.Prelude.Int.{ℤ}
use rescue_proxy.Prelude.Exec.{Exec, Result, ok, err, pure, raise, ◌>>=◌, ◌>>◌}
use rescue_proxy.Cache.{of_bytes, address_eq, Address}
use rescue_proxy.Execution.{index_out_of_range}
use rescue_proxy.Router.Auth.{
  unimplemented, unauthenticated, internal, authenticate, AuthenticationError, Credential,
}
use rescue_proxy.Router.World.{World, Services, count, or_stop}
use rescue_proxy.Router.Grpc.{
  Protobuf, Stop, status, panicked, G, validate_prepare_beacon_proposer,
  validate_register_validators,
}

-- validationCb: one of the two methods.
pub data ValidationCb : Type 0 where
  prepare_beacon_proposer_cb register_validators_cb : ValidationCb

-- The stream that a handler gets: the server's own, or one that validates.
pub data ServerStream : Type 0 where
  plain : ServerStream
  guarded : ValidationCb → Address → ServerStream

-- The message that a caller wants filled: the unknown fields that it holds, or none if it is no
-- proto.Message.
abbrev pub Target : Type 0
Target = Option Bytes

-- The stream beneath: `RecvMsg` fills a message, and fails at the stream's end, say.
pub record Transport (T : Type 0) : Type 0 where
  pub recv_msg : T → Result Stop Target × T

-- strings.Split, by a single byte
unfoldable pub split : ℕ → Bytes → List Bytes
split sep [] = [] ∷ []
split sep (c ∷ s) = elim (split sep s) [
  | [] ↦ [] ∷ []
  | part ∷ parts ↦ if c == sep then [] ∷ part ∷ parts else (c ∷ part) ∷ parts
]

abbrev pub services : List Bytes
services =
    codes "ethereum.eth.v1alpha1.BeaconChain"
    ∷ codes "ethereum.eth.v1alpha1.BeaconNodeValidator"
    ∷ codes "ethereum.eth.v1alpha1.Node"
    ∷ []

unfoldable pub is_service : Bytes → List Bytes → Bool
is_service name [] = false
is_service name (s ∷ more) = name == s || is_service name more

abbrev pub msg_cbs : Map Bytes ValidationCb
msg_cbs =
    (codes "PrepareBeaconProposer", prepare_beacon_proposer_cb)
    ∷ (codes "SubmitValidatorRegistrations", register_validators_cb)
    ∷ []

-- The methods that are let through with no credential.
unfoldable pub is_exempt : Bytes → Bool
is_exempt method = method == codes "DomainData" || method == codes "SubscribeCommitteeSubnets"

abbrev pub values : Option (List Bytes) → List Bytes
values none = []
values (some vs) = vs

module _ {S B : Type 0} (x : Services S B) (proto : Protobuf) where
  unfoldable pub run_cb : ValidationCb → Bytes → Address → G x proto (Unit {0})
  run_cb prepare_beacon_proposer_cb = validate_prepare_beacon_proposer x proto
  run_cb register_validators_cb = validate_register_validators x proto

  -- The state of a call: what the callbacks share, and the stream beneath.
  abbrev pub Call : Type 0 → Type 0 → Type 0
  Call T X = Exec (World S B × T) Stop X

  abbrev pub on_world : {T X : Type 0} → G x proto X → Call T X
  on_world op s = ((op s.0).0, ((op s.0).1, s.1))

  abbrev pub on_transport : {T X : Type 0} → (T → Result Stop X × T) → Call T X
  on_transport op s = ((op s.1).0, (s.0, (op s.1).1))

  -- (*guardedServerStream).RecvMsg, which validates what the message holds when it is called.
  unfoldable pub recv_msg :
      {T : Type 0} → Transport T → ValidationCb → Address → Target → Call T Target
  recv_msg transport cb node_addr none = raise (status internal)
  recv_msg transport cb node_addr (some unknown) =
      on_world (run_cb cb unknown node_addr) >> on_transport transport.recv_msg

  -- authenticate(username, password), whose counts are the authentication's own
  abbrev pub authenticated : ℤ → Bytes → Bytes → G x proto (Result AuthenticationError Credential)
  authenticated now username password w = (
    ok (authenticate x.auth now username password w.auth).0,
    record w { auth = (authenticate x.auth now username password w.auth).1 },
  )

  -- From the metadata's values of "rprnauth" to the node's address.
  unfoldable pub node_of_header : ℤ → List Bytes → G x proto Address
  node_of_header now [] = do count "auth_header_missing"; raise (status unauthenticated)
  node_of_header now (val ∷ vals) = elim (split b':' val) [
    | username ∷ password ∷ [] ↦ do
      answer ← authenticated now username password
      elim answer [
        | err e ↦ do count "unauthed"; raise (status e.grpc_code)
        | ok ac ↦ do count "auth_ok"; pure (x.bytes_to_address ac.node_id)
      ]
    | _ ↦ do count "auth_header_malformed"; raise (status unauthenticated)
  ]

  -- The stream for a method: msgCbs[method[2]].
  unfoldable pub stream_for : Address → Option ValidationCb → G x proto ServerStream
  stream_for node_addr none = do count "unguarded_service_call"; pure plain
  stream_for node_addr (some cb) = do count "guarded_service_call"; pure (guarded cb node_addr)

  -- The node that the method is called for; the zero address for the methods that are exempt.
  unfoldable pub caller : ℤ → Map Bytes (List Bytes) → Bytes → G x proto Address
  caller now md method =
      if is_exempt method
      then pure (of_bytes (replicate 20 0) tt)
      else node_of_header now (values (Map.get (codes "rprnauth") md))

  -- `ok` is the stream that the handler is called with.
  unfoldable pub payload_interceptor :
      ℤ → Option (Map Bytes (List Bytes)) → Bytes → G x proto ServerStream
  payload_interceptor now incoming full_method = do
    let method = split b'/' full_method
    service ← or_stop (panicked index_out_of_range) (get_elem? method 1)
    if is_service service services
        then elim incoming [
          | none ↦ do count "auth_header_missing"; raise (status unauthenticated)
          | some md ↦ do
            name ← or_stop (panicked index_out_of_range) (get_elem? method 2)
            node_addr ← caller now md name
            stream_for node_addr (Map.get name msg_cbs)
        ]
        else do count "unknown_service"; raise (status unimplemented)
