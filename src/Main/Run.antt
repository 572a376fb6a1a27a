-- ===== src/Main/Run.antt =====
-- main.go, `main` and `waitForSignals`: the order in which the parts start and stop. What a part does is left
-- out: a step is recorded, and a parameter says whether each of the steps that can fail succeeds.
pub mod Order
use rescue_proxy.Cache.{address_eq}
use rescue_proxy.Prelude.{
  ℕ, Bool, true, false, Option, none, some, List, [], ◌∷◌, ◌==◌, ◌||◌, ◌&&◌, not, nat_eq,
  if◌then◌else◌,
}
use rescue_proxy.Prelude.Exec.{Exec, Result, ok, err, pure, modify, ◌>>=◌, ◌>>◌}
use rescue_proxy.Main.{Config, is_empty}

pub data Action : Type 0 where
  init_metrics init_epoch_metrics init_admin start_admin listen pick_maps pick_sqlite init_el
        init_cl :
      Action
  init_auth serve_http init_api init_grpc wait_for_signals shutdown_http close_listener : Action
  deinit_api wait_for_http deinit_el deinit_cl close_admin deinit_grpc : Action

-- os.Exit(1), which runs no deferred call.
pub data Exit : Type 0 where
  exit_1 : Exit

-- What has been done, the last step first.
abbrev pub Run : Type 0
Run = Exec (List Action) Exit (Unit {0})

abbrev pub act : Action → Run
act a = modify (λ done. a ∷ done)

-- A step whose error ends the process.
abbrev pub attempt : (Action → Bool) → Action → Run
attempt succeeds a done = (if succeeds a then ok tt else err exit_1, a ∷ done)

-- The cache in memory, unless there is a path for the other.
abbrev pub pick_cache : Config → Action
pick_cache config = if is_empty config.cache_path then pick_maps else pick_sqlite

-- From the trapping of the signals to the end.
unfoldable pub serve_and_stop : Run
serve_and_stop = do
  act wait_for_signals
  act shutdown_http
  act close_listener
  act deinit_api
  act wait_for_http
  act deinit_el
  act deinit_cl
  act close_admin

-- With the gRPC proxy, whose `Deinit` is deferred.
unfoldable pub with_grpc : (Action → Bool) → Bool → Run
unfolding serve_and_stop
with_grpc succeeds true = serve_and_stop
with_grpc succeeds false = do attempt succeeds init_grpc; serve_and_stop; act deinit_grpc

unfoldable pub main : (Action → Bool) → Config → Run
unfolding with_grpc
main succeeds config = do
  attempt succeeds init_metrics
  act init_epoch_metrics
  act init_admin
  attempt succeeds start_admin
  attempt succeeds listen
  act (pick_cache config)
  attempt succeeds init_el
  attempt succeeds init_cl
  act init_auth
  act serve_http
  attempt succeeds init_api
  with_grpc succeeds (is_empty config.grpc_listen_addr)

-- The signals that are trapped: SIGTERM, and the others given.
unfoldable pub trapped : ℕ → List ℕ → List ℕ
trapped sigterm [] = sigterm ∷ []
trapped sigterm (s ∷ signals) =
    let rest = trapped sigterm signals in if s == sigterm then rest else s ∷ rest
