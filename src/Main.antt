-- ===== src/Main.antt =====
-- main.go, `initFlags`: which command lines the proxy starts with. `url.Parse` and `time.ParseDuration` are
-- parameters, none on an error, and so is whether the logger can be built. What `main` then does is in Run.
pub mod Laws
pub mod Run
use rescue_proxy.Cache.{address_eq}
use rescue_proxy.Prelude.{
  Bytes, codes, Bool, true, false, Option, none, some, List, [], ◌∷◌, ◌==◌, ◌&&◌, ◌||◌, not, nat_eq,
  list_eq, if◌then◌else◌,
}
use rescue_proxy.Prelude.Int.{ℤ}

-- The flags after `flag.Parse`.
pub record Flags : Type 0 where
  pub bn_url : Bytes
  pub ec_url : Bytes
  pub addr : Bytes
  pub admin_addr : Bytes
  pub api_addr : Bytes
  pub grpc_addr : Bytes
  pub grpc_beacon_addr : Bytes
  pub grpc_tls_cert_file : Bytes
  pub grpc_tls_key_file : Bytes
  pub rocketstorage_addr : Bytes
  pub hmac_secret : Bytes
  pub auth_valid_for : Bytes
  pub cache_path : Bytes

-- What the code reads of a `url.URL`: its scheme, and its text.
pub record Url : Type 0 where
  pub scheme : Bytes
  pub text : Bytes

pub record Parsers : Type 0 where
  pub parse_url : Bytes → Option Url
  pub parse_duration : Bytes → Option ℤ

pub record Config : Type 0 where
  pub beacon_url : Url
  pub execution_url : Url
  pub listen_addr : Bytes
  pub api_listen_addr : Bytes
  pub admin_listen_addr : Bytes
  pub grpc_listen_addr : Bytes
  pub grpc_beacon_addr : Bytes
  pub grpc_tls_cert_file : Bytes
  pub grpc_tls_key_file : Bytes
  pub rocket_storage_addr : Bytes
  pub credential_secret : Bytes
  pub auth_validity_window : ℤ
  pub cache_path : Bytes

abbrev pub is_empty : Bytes → Bool
is_empty [] = true
is_empty (b ∷ bs) = false

-- Exactly one of the two files is given.
unfoldable pub half_tls : Flags → Bool
half_tls f =
    (is_empty f.grpc_tls_cert_file && not (is_empty f.grpc_tls_key_file))
    || (not (is_empty f.grpc_tls_cert_file) && is_empty f.grpc_tls_key_file)

-- From the check of the duration to the end.
unfoldable pub with_window : Flags → Url → Url → Option ℤ → Option Config
unfolding half_tls
with_window f beacon execution none = none
with_window f beacon execution (some window) =
    if half_tls f
    then none
    else some (record {
      beacon_url = beacon;
      execution_url = execution;
      listen_addr = f.addr;
      api_listen_addr = f.api_addr;
      admin_listen_addr = f.admin_addr;
      grpc_listen_addr = f.grpc_addr;
      grpc_beacon_addr = f.grpc_beacon_addr;
      grpc_tls_cert_file = f.grpc_tls_cert_file;
      grpc_tls_key_file = f.grpc_tls_key_file;
      rocket_storage_addr = f.rocketstorage_addr;
      credential_secret = f.hmac_secret;
      auth_validity_window = window;
      cache_path = f.cache_path;
    })

-- From the checks of the schemes on.
unfoldable pub with_urls : Parsers → Flags → Option Url → Option Url → Option Config
unfolding with_window
with_urls p f none execution = none
with_urls p f (some beacon) none = none
with_urls p f (some beacon) (some execution) =
    if not (beacon.scheme == codes "http") && not (beacon.scheme == codes "https")
    then none
    else if not (execution.scheme == codes "ws")
    then none
    else if is_empty f.addr
    then none
    else if is_empty f.admin_addr
    then none
    else if is_empty f.api_addr
    then none
    else if is_empty f.hmac_secret
    then none
    else if is_empty f.auth_valid_for
    then none
    else with_window f beacon execution (p.parse_duration f.auth_valid_for)

-- none is os.Exit(1), after a message.
unfoldable pub init_flags : Parsers → Bool → Flags → Option Config
unfolding with_urls
init_flags p logger_built f =
    if not logger_built
    then none
    else if is_empty f.bn_url
    then none
    else if is_empty f.ec_url
    then none
    else with_urls p f (p.parse_url f.bn_url) (p.parse_url f.ec_url)
