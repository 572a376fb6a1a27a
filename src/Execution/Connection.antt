-- ===== src/Execution/Connection.antt =====
-- executionlayer/execution-layer.go: the subscriptions of the execution layer. `handleSubscriptionError`,
-- the goroutine that `ecEventsConnect` starts, and `ecEventsConnect` and `Deinit` themselves. A
-- subscription is a number; unsubscribing is kept as a list of those given up.
pub mod Reconnect
pub mod Listen
pub mod Follow
pub mod Drain
use rescue_proxy.Prelude.{
  ℕ, zero, suc, ◌+◌, ◌*◌, Bool, true, false, Option, none, some, List, [], ◌∷◌, String, ◌&&◌,
  if◌then◌else◌,
}
use rescue_proxy.Prelude.Int.{ℤ}
use rescue_proxy.Prelude.Exec.{Exec, Result, ok, err, pure, raise, ◌>>=◌, ◌>>◌}
use rescue_proxy.Cache.{address_eq, Cache, CacheError}
use rescue_proxy.Execution.{
  El, Contracts, Chain, Log, Panic, backfill_failure, reconnect_failure, count,
}
use rescue_proxy.Execution.Events.{handle_event}
use rescue_proxy.Execution.Backfill.{Client, RpcError, nil, rpc_error, backfill_events}

abbrev pub reconnect_retries : ℕ
reconnect_retries = 10

pub record Connection (S : Type 0) : Type 0 where
  pub el : El S
  pub shutdown : Bool
  -- what `ethclientShutdownCb` unsubscribes
  pub shutdown_cb : Option (ℕ × ℕ)
  pub log_sub : ℕ
  pub head_sub : ℕ
  pub unsubscribed : List ℕ
  -- seconds slept between attempts
  pub slept : ℕ

-- The execution client while it is being reconnected: for each attempt, the answers of
-- `SubscribeFilterLogs` and `SubscribeNewHead`, and what the client then says of the chain.
pub record Network : Type 0 where
  pub subscribe_logs : ℕ → Option ℕ
  pub subscribe_heads : ℕ → Option ℕ
  pub client : ℕ → Client
  pub chain : Chain

module _ {S : Type 0} where
  abbrev pub on_el : {A : Type 0} → Exec (El S) Panic A → Exec (Connection S) Panic A
  on_el op s = ((op s.el).0, record s { el = (op s.el).1 })

  abbrev pub sleep : ℕ → Exec (Connection S) Panic (Unit {0})
  sleep seconds s = (ok tt, record s { slept = s.slept + seconds })

  abbrev pub set_ec_shutdown_cb : ℕ → ℕ → Exec (Connection S) Panic (Unit {0})
  set_ec_shutdown_cb logs heads s = (ok tt, record s { shutdown_cb = some (logs, heads) })

  abbrev pub set_subs : ℕ → ℕ → Exec (Connection S) Panic (Unit {0})
  set_subs logs heads s = (ok tt, record s { log_sub = logs; head_sub = heads })

  abbrev pub unsubscribe : ℕ → Exec (Connection S) Panic (Unit {0})
  unsubscribe sub s = (ok tt, record s { unsubscribed = sub ∷ s.unsubscribed })

module _ {S : Type 0} (c : Cache S) (k : Contracts) where
  -- After `SubscribeFilterLogs` has succeeded; a refused `SubscribeNewHead` leaves the loop.
  unfoldable pub resubscribed : Chain → Client → ℕ → Option ℕ → Exec (Connection S) Panic (Unit {0})
  resubscribed chain client logs none = raise reconnect_failure
  resubscribed chain client logs (some heads) = do
    set_ec_shutdown_cb logs heads
    e ← on_el (backfill_events c k chain client)
    elim e [ rpc_error ↦ raise backfill_failure | nil ↦ set_subs logs heads ]

  -- The rounds that are left, and the attempt's number.
  unfoldable pub reconnect : Network → ℕ → ℕ → Exec (Connection S) Panic (Unit {0})
  reconnect net zero i = raise reconnect_failure
  reconnect net (suc left) i = do
    on_el (count "reconnection_attempt")
    elim (net.subscribe_logs i) [
      | none ↦ do sleep (i * 5); reconnect net left (i + 1)
      | some logs ↦ resubscribed net.chain (net.client i) logs (net.subscribe_heads i)
    ]

  unfoldable pub handle_subscription_error : Network → Exec (Connection S) Panic (Unit {0})
  handle_subscription_error net s =
      if s.shutdown
      then (ok tt, s)
      else (do on_el (count "subscription_disconnected"); reconnect net reconnect_retries 0) s

-- What the goroutine's select receives.
pub data Message : Type 0 where
  log_error head_error : Network → Message
  event : Chain → Log → Message
  header : ℤ → Message
  events_closed headers_closed : Message

pub record Listener (S : Type 0) : Type 0 where
  pub conn : Connection S
  pub no_more_events : Bool
  pub no_more_headers : Bool

module _ {S : Type 0} (c : Cache S) (k : Contracts) where
  abbrev pub on_conn : {A : Type 0} → Exec (Connection S) Panic A → Exec (Listener S) Panic A
  on_conn op s = ((op s.conn).0, record s { conn = (op s.conn).1 })

  -- The test at the end of a round: whether the loop goes on.
  abbrev pub more_to_come : Exec (Listener S) Panic Bool
  more_to_come s = (ok (if s.no_more_events && s.no_more_headers then false else true), s)

  -- One round of the loop. A header goes on to the next round with no test.
  unfoldable pub receive : Message → Exec (Listener S) Panic Bool
  receive (log_error net) = do
    on_conn (λ s. unsubscribe s.head_sub s)
    on_conn (handle_subscription_error c k net)
    more_to_come
  receive (head_error net) = do
    on_conn (λ s. unsubscribe s.log_sub s)
    on_conn (handle_subscription_error c k net)
    more_to_come
  receive (event answers log) = do
    (λ s. (ok tt, record s { no_more_events = false }))
    on_conn (on_el (handle_event c k answers log))
    more_to_come
  receive events_closed = do (λ s. (ok tt, record s { no_more_events = true })); more_to_come
  receive (header number) = do
    (λ s. (ok tt, record s { no_more_headers = false }))
    on_conn (on_el (count "block_header_received"))
    on_conn (on_el (λ el. (ok tt, record el { cache = c.set_highest_block number el.cache })))
    pure true
  receive headers_closed = do (λ s. (ok tt, record s { no_more_headers = true })); more_to_come

  -- The rounds, until the loop breaks; true if it still waits for messages.
  unfoldable pub listen : List Message → Exec (Listener S) Panic Bool
  listen [] = pure true
  listen (message ∷ rest) = do go_on ← receive message; if go_on then listen rest else pure false

  -- `Deinit`, up to closing the channels: nothing if the callback is not set.
  unfoldable pub begin_deinit : Connection S → Connection S
  begin_deinit s = elim s.shutdown_cb [
    | none ↦ s
    | some (logs, heads) ↦ record s {
      shutdown = true;
      unsubscribed = heads ∷ logs ∷ s.unsubscribed;
    }
  ]
