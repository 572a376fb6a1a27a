-- ===== src/Router/Grpc/Serving.antt =====
-- router/grpc.go: `Init`, `Deinit`, `director` and `transportCredentials`. Listening, dialling and loading a
-- certificate are parameters, which say whether they succeed; `NewProxy` makes a server of its options.
use rescue_proxy.Cache.{address_eq}
use rescue_proxy.Prelude.{
  Bytes, Bool, true, false, Option, none, some, List, [], ◌∷◌, ◌≡◌, refl, if◌then◌else◌,
}
use rescue_proxy.Main.{is_empty}
use rescue_proxy.Router.Auth.{GrpcCode, internal}

pub record Tls : Type 0 where
  pub cert_file : Bytes
  pub key_file : Bytes

pub data TransportCredentials : Type 0 where
  insecure : TransportCredentials
  server_tls : Tls → TransportCredentials

-- The options that the server is made with, of those that grpc has.
pub data ServerOption : Type 0 where
  unknown_service_handler stream_interceptor : ServerOption
  creds : TransportCredentials → ServerOption

pub record Network : Type 0 where
  pub listen : Bytes → Bool
  pub load_certificate : Tls → Bool
  pub dial : Bytes → TransportCredentials → Bool

-- What is open: the listener's address, the upstream with the credentials it was dialled with, and the server.
pub record GrpcServer : Type 0 where
  pub listener : Option Bytes
  pub upstream : Option (Bytes × TransportCredentials)
  pub proxy : Option (List ServerOption)

-- Every call is to be handled by the proxy, so that the director only refuses.
unfoldable pub director : Bytes → GrpcCode
director full_method_name = internal

unfoldable pub transport_credentials : Network → Tls → Option TransportCredentials
transport_credentials net tls =
    if is_empty tls.cert_file
    then some insecure
    else if net.load_certificate tls
    then some (server_tls tls)
    else none

abbrev pub server_options : List ServerOption
server_options = unknown_service_handler ∷ stream_interceptor ∷ []

abbrev pub dialled : Network → Bytes → GrpcServer → Option TransportCredentials → Bool × GrpcServer
dialled net beacon_addr g none = (false, g)
dialled net beacon_addr g (some tc) =
    if net.dial beacon_addr tc
    then (true, record g { upstream = some (beacon_addr, tc); proxy = some server_options })
    else (false, g)

-- Whether it succeeds; what was opened before an error stays open.
unfoldable pub init : Network → Tls → Bytes → Bytes → GrpcServer → Bool × GrpcServer
unfolding transport_credentials
init net tls listen_addr beacon_addr g =
    if net.listen listen_addr
    then dialled net beacon_addr (record g { listener = some listen_addr })
        (transport_credentials net tls)
    else (false, g)

unfoldable pub deinit : GrpcServer → GrpcServer
deinit g = record g { proxy = none; listener = none; upstream = none }

-- The credentials of the certificate go to the connection to the beacon node, and the server that users
-- connect to has none.
init_lem :
    (net : Network) (tls : Tls) (listen_addr beacon_addr : Bytes) (g : GrpcServer)
    → net.listen listen_addr ≡ true
    → is_empty tls.cert_file ≡ false
    → net.load_certificate tls ≡ true
    → net.dial beacon_addr (server_tls tls) ≡ true
    → init net tls listen_addr beacon_addr g ≡ (
      true,
      record {
        listener = some listen_addr;
        upstream = some (beacon_addr, server_tls tls);
        proxy = some server_options;
      },
    )
unfolding init transport_credentials
init_lem net tls listen_addr beacon_addr g l e c d = rw (l, e, c, d) refl
