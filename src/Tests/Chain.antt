-- ===== src/Tests/Chain.antt =====
-- Events, backfilling and reconnecting at the small deployment.
use rescue_proxy.Prelude.{arith, if◌then◌else◌, true, false, none, some, [], ◌∷◌, ◌≡◌, refl, ◌+◌}
use rescue_proxy.Prelude.Tests.{list_beq}
use rescue_proxy.Prelude.Int.{ℤ, pos, ◌+ℤ◌, ltb_ℤ, max_ℤ, ◌<ℤ◌, int64_of_uint64}
use rescue_proxy.Prelude.Exec.{ok, err}
use rescue_proxy.Cache.{address_eq, with_highest}
use rescue_proxy.Cache.Maps.{MapsCache, maps_cache}
use rescue_proxy.Cache.Maps.Laws.{maps_laws}
use rescue_proxy.Execution.{Log, reconnect_failure, big_endian, big_endian_from}
use rescue_proxy.Execution.Events.{handle_event}
use rescue_proxy.Execution.Events.Changes.{Change, pool_status, change_of, apply, apply_at}
use rescue_proxy.Execution.Events.Laws.{Changes, handle_event-Changes}
use rescue_proxy.Execution.Backfill.{Client, nil, backfill_events}
use rescue_proxy.Execution.Backfill.Laws.{apply_all, Backfilled, backfill_events-Backfilled}
use rescue_proxy.Execution.Connection.{
  Connection, Network, Listener, handle_subscription_error, receive, header, event, log_error,
  events_closed, headers_closed, listen,
}
use rescue_proxy.Execution.Connection.Reconnect.{
  Reconnected, reconnect_gives_up, handle_subscription_error-Reconnected,
}
use rescue_proxy.Execution.Connection.Follow.{listening, listen-reconnected}
use rescue_proxy.Execution.Connection.Listen.{WasClosed, listen-WasClosed, backfill_after_header}
use rescue_proxy.Tests.Fixtures.{contracts, el, alice, distributor, chain}

-- Alice leaves the smoothing pool in block 101.
abbrev pub left_pool : Log
left_pool = record {
  address = contracts.node_manager;
  topics = (12 ∷ []) ∷ alice.bytes ∷ [];
  payload = 0 ∷ [];
  block_number = 101;
}

abbrev pub leaves : Change
leaves = pool_status alice false distributor

healthy : maps_laws.healthy el.cache ≡ true
unfolding maps_laws
healthy = refl

pub says : change_of contracts chain left_pool ≡ some leaves
unfolding change_of list_beq big_endian big_endian_from
says = refl

handle_event-Changes_example :
    Changes maps_laws el.cache
      (apply_at 101 leaves)
      (handle_event maps_cache contracts chain left_pool el)
handle_event-Changes_example =
    handle_event-Changes maps_laws contracts chain left_pool leaves el says healthy

abbrev pub client : Client
client = record { latest = some (pos 103); filter_logs = λ start stop. some (left_pool ∷ []) }

gap : ltb_ℤ (pos 103) ((maps_laws.contents el.cache).highest +ℤ pos 1) ≡ false
unfolding maps_laws ◌+ℤ◌
gap = refl

backfill_events-Backfilled_example :
    Backfilled maps_laws contracts chain
      (with_highest
        (pos 103)
        (apply_all (left_pool ∷ []) (leaves ∷ []) (maps_laws.contents el.cache)))
      nil
      (backfill_events maps_cache contracts chain client el)
backfill_events-Backfilled_example =
    backfill_events-Backfilled maps_laws contracts chain client (pos 103) (left_pool ∷ [])
      (leaves ∷ []) el healthy refl gap refl (says, tt)

abbrev connection : Connection MapsCache
connection = record {
  el = el;
  shutdown = false;
  shutdown_cb = none;
  log_sub = 0;
  head_sub = 1;
  unsubscribed = [];
  slept = 0;
}

-- The first attempt is refused, or all are.
abbrev pub flaky : Network
flaky = record {
  subscribe_logs = λ i. elim i [ Prim.Native.Nat.zero ↦ none | _ ↦ some 5 ];
  subscribe_heads = λ i. some 6;
  client = λ i. client;
  chain = chain;
}

abbrev pub dead : Network
dead = record flaky { subscribe_logs = λ i. none }

reconnect_gives_up_example :
    ((handle_subscription_error maps_cache contracts dead connection).0 ≡ err reconnect_failure)
    × ((handle_subscription_error maps_cache contracts dead connection).1.slept ≡ 0 + 225)
reconnect_gives_up_example =
    reconnect_gives_up maps_cache contracts dead connection refl
      (refl, (refl, (refl, (refl, (refl, (refl, (refl, (refl, (refl, (refl, tt))))))))))

handle_subscription_error-Reconnected_example :
    Reconnected maps_cache contracts flaky maps_laws 1 5 6
      (with_highest
        (pos 103)
        (apply_all (left_pool ∷ []) (leaves ∷ []) (maps_laws.contents el.cache)))
      connection
      (handle_subscription_error maps_cache contracts flaky connection)
handle_subscription_error-Reconnected_example =
    handle_subscription_error-Reconnected maps_cache contracts flaky maps_laws 1 8 5 6 (pos 103)
      (left_pool ∷ []) (leaves ∷ []) connection refl refl healthy (refl, tt) refl refl refl gap refl
      (says, tt)

abbrev listener : Listener MapsCache
listener = record { conn = connection; no_more_events = false; no_more_headers = false }

both_closed :
    (listen maps_cache contracts (events_closed ∷ headers_closed ∷ []) listener).0 ≡ ok false
unfolding listen receive
both_closed = refl

listen-WasClosed_example : WasClosed (events_closed ∷ headers_closed ∷ [])
listen-WasClosed_example =
    listen-WasClosed maps_cache contracts (events_closed ∷ headers_closed ∷ []) listener refl refl
      both_closed

-- A client that has other events of block 102.
abbrev other_client : Client
other_client = record client {
  filter_logs = λ start stop. if ltb_ℤ (pos 102) start then some (left_pool ∷ []) else some [];
}

above_102 :
    (start stop : ℤ)
    → pos 102 <ℤ start
    → client.filter_logs start stop ≡ other_client.filter_logs start stop
above_102 start stop h = ground arith

backfill_after_header_example :
    let after = (receive maps_cache contracts (header (pos 102)) listener).1.conn.el in
    backfill_events maps_cache contracts chain client after
    ≡ backfill_events maps_cache contracts chain other_client after
backfill_after_header_example =
    backfill_after_header maps_cache contracts maps_laws chain client other_client (pos 102)
      listener refl above_102

open_gap :
    ltb_ℤ
      (pos 103)
      ((apply_all (left_pool ∷ []) (leaves ∷ []) (maps_laws.contents el.cache)).highest +ℤ pos 1)
    ≡ false
unfolding maps_laws ◌+ℤ◌ apply_all apply max_ℤ int64_of_uint64
open_gap = refl

listen-reconnected_example :
    maps_laws.contents
      (listen maps_cache contracts
        (event chain left_pool ∷ log_error flaky ∷ [])
        (listening connection)).1.conn.el.cache
    ≡ maps_laws.contents
        (listen maps_cache contracts
          (event chain left_pool ∷ event chain left_pool ∷ header (pos 103) ∷ [])
          (listening connection)).1.conn.el.cache
listen-reconnected_example =
    listen-reconnected maps_laws contracts flaky 1 8 5 6 (pos 103) (left_pool ∷ []) (left_pool ∷ [])
      (leaves ∷ []) (leaves ∷ []) connection refl refl healthy (says, tt) (says, tt) (refl, tt) refl
      refl refl open_gap refl
