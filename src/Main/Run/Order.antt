-- ===== src/Main/Run/Order.antt =====
-- main.go: what has started when requests are served, and what has stopped when the execution layer is.
use rescue_proxy.Cache.{address_eq}
use rescue_proxy.Prelude.{
  ℕ, Bool, true, false, List, [], ◌∷◌, ◌≡◌, arith, ◌==◌, ◌||◌, ◌&&◌, not, nat_eq,
}
use rescue_proxy.Prelude.Exec.{Result, ok, err}
use rescue_proxy.Main.{Config, is_empty}
use rescue_proxy.Main.Run.{
  Action, init_metrics, init_epoch_metrics, init_admin, start_admin, listen, pick_maps, pick_sqlite,
  init_el, init_cl, init_auth, serve_http, init_api, init_grpc, wait_for_signals, shutdown_http,
  close_listener, deinit_api, wait_for_http, deinit_el, deinit_cl, close_admin, deinit_grpc, Exit,
  main, with_grpc, serve_and_stop,
}

abbrev number : Action → ℕ
number init_metrics = 0
number init_epoch_metrics = 1
number init_admin = 2
number start_admin = 3
number listen = 4
number pick_maps = 5
number pick_sqlite = 6
number init_el = 7
number init_cl = 8
number init_auth = 9
number serve_http = 10
number init_api = 11
number init_grpc = 12
number wait_for_signals = 13
number shutdown_http = 14
number close_listener = 15
number deinit_api = 16
number wait_for_http = 17
number deinit_el = 18
number deinit_cl = 19
number close_admin = 20
number deinit_grpc = 21

-- The step is one of those done.
abbrev happened : Action → List Action → Bool
happened a [] = false
happened a (x ∷ earlier) = number x == number a || happened a earlier

-- Wherever the second step was done, the first was done before; the last step done stands first.
abbrev preceded : Action → Action → List Action → Bool
preceded a b [] = true
preceded a b (x ∷ earlier) =
    (not (number x == number b) || happened a earlier) && preceded a b earlier

abbrev returned : Result Exit (Unit {0}) → Bool
returned (ok _) = true
returned (err _) = false

-- Of a run of `main` with its outcome.
pub record IsOrdered (succeeds : Action → Bool) (config : Config)
    (after : Result Exit (Unit {0}) × List Action) : Type 0 where
  -- the HTTP proxy starts once both layers are up and the authentication is set
  pub http_served :
      not (happened serve_http after.1) || (succeeds init_el && succeeds init_cl) ≡ true
  pub http_last :
      preceded init_el serve_http after.1
        && preceded init_cl serve_http after.1
        && preceded init_auth serve_http after.1
      ≡ true
  -- so does the gRPC proxy
  pub grpc_served :
      not (happened init_grpc after.1) || (succeeds init_el && succeeds init_cl) ≡ true
  pub grpc_after :
      preceded init_el init_grpc after.1
        && preceded init_cl init_grpc after.1
        && preceded init_auth init_grpc after.1
      ≡ true
  -- and the API, which needs the execution layer
  pub api_served : not (happened init_api after.1) || succeeds init_el ≡ true
  pub api_after : preceded init_el init_api after.1 ≡ true
  -- the execution layer is stopped once the HTTP proxy and the API are
  pub stopped :
      preceded wait_for_http deinit_el after.1 && preceded deinit_api deinit_el after.1 ≡ true
  pub ends_stopped : not (returned after.0) || happened deinit_el after.1 ≡ true
  -- the gRPC proxy is stopped, but only after the execution layer
  pub grpc_stopped :
      not (returned after.0) || is_empty config.grpc_listen_addr || happened deinit_grpc after.1
      ≡ true
  pub grpc_last : preceded deinit_el deinit_grpc after.1 ≡ true

-- Whatever fails, and for every configuration: each of the two proxies starts only after both
-- layers are up and the authentication is set, and the API only after the execution layer is up; a
-- run that returns has stopped the execution layer, after the HTTP proxy and the API server, and
-- has stopped the gRPC proxy if it has one, after the execution layer.
pub main-IsOrdered :
    (succeeds : Action → Bool) (config : Config)
    → IsOrdered succeeds config (main succeeds config [])
unfolding main with_grpc serve_and_stop
main-IsOrdered succeeds config = ground arith
