-- ===== src/Tests/Started.antt =====
-- A command line that the proxy starts with.
use rescue_proxy.Prelude.{
  Bool, false, Bytes, codes, true, some, [], ◌≡◌, refl, ◌==◌, if◌then◌else◌, nat_eq, list_eq,
}
use rescue_proxy.Prelude.Tests.{list_beq}
use rescue_proxy.Prelude.Int.{pos}
use rescue_proxy.Main.{Flags, Parsers, Config, half_tls, with_window, with_urls, init_flags}
use rescue_proxy.Main.Run.{Action, init_cl, main}
use rescue_proxy.Main.Run.Order.{IsOrdered, main-IsOrdered}
use rescue_proxy.Main.Laws.{IsUsable, init_flags-IsUsable}

abbrev flags : Flags
flags = record {
  bn_url = codes "http:";
  ec_url = codes "ws:";
  addr = codes "0.0.0.0:80";
  admin_addr = codes "0.0.0.0:8000";
  api_addr = codes "0.0.0.0:8080";
  grpc_addr = [];
  grpc_beacon_addr = [];
  grpc_tls_cert_file = [];
  grpc_tls_key_file = [];
  rocketstorage_addr = codes "0x1d";
  hmac_secret = codes "test-secret";
  auth_valid_for = codes "360h";
  cache_path = [];
}

-- The schemes of the two URLs above.
abbrev scheme_of : Bytes → Bytes
scheme_of url = if url == codes "ws:" then codes "ws" else codes "http"

abbrev parsers : Parsers
parsers = record {
  parse_url = λ t. some (record { scheme = scheme_of t; text = t });
  parse_duration = λ t. some (pos 1296000000000000);
}

abbrev config : Config
config = record {
  beacon_url = record { scheme = codes "http"; text = codes "http:" };
  execution_url = record { scheme = codes "ws"; text = codes "ws:" };
  listen_addr = codes "0.0.0.0:80";
  api_listen_addr = codes "0.0.0.0:8080";
  admin_listen_addr = codes "0.0.0.0:8000";
  grpc_listen_addr = [];
  grpc_beacon_addr = [];
  grpc_tls_cert_file = [];
  grpc_tls_key_file = [];
  rocket_storage_addr = codes "0x1d";
  credential_secret = codes "test-secret";
  auth_validity_window = pos 1296000000000000;
  cache_path = [];
}

started : init_flags parsers true flags ≡ some config
unfolding init_flags with_urls with_window half_tls list_beq
started = refl

init_flags-IsUsable_example : IsUsable parsers flags config
init_flags-IsUsable_example = init_flags-IsUsable parsers true flags config started

-- The beacon node cannot be reached.
abbrev no_beacon : Action → Bool
no_beacon init_cl = false
no_beacon _ = true

main-IsOrdered_example : IsOrdered no_beacon config (main no_beacon config [])
main-IsOrdered_example = main-IsOrdered no_beacon config
