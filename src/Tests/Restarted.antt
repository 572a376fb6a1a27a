-- ===== src/Tests/Restarted.antt =====
-- Starting the execution layer over the SQLite cache, after a restart.
use rescue_proxy.Prelude.{◌∷◌, []}
use rescue_proxy.Cache.Sqlite
use rescue_proxy.Cache.{address_eq, IsCleared, with_highest}
use rescue_proxy.Execution.Start.Preloaded.{preloaded}
use rescue_proxy.Tests.Fixtures.{alice}
use rescue_proxy.Prelude.{true, false, none, some, [], ◌≡◌, refl, arith, nat_eq, list_eq, ap}
use rescue_proxy.Prelude.Int.{pos, ◌+ℤ◌, ◌-ℤ◌, ltb_ℤ, int64_of_big, int64_of_uint64}
use rescue_proxy.Prelude.Exec.{ok}
use rescue_proxy.Cache.{Contents}
use rescue_proxy.Cache.Sqlite.{SqliteCache}
use rescue_proxy.Cache.Sqlite.Transactions.{contents}
use rescue_proxy.Cache.Sqlite.Files
use rescue_proxy.Cache.Sqlite.Files.{sqlite_cache}
use rescue_proxy.Cache.Sqlite.Files.Restart.{init-deinit_roundtrip}
use rescue_proxy.Cache.Sqlite.Laws.{sqlite_laws}
use rescue_proxy.Execution.Backfill.{Client, nil, backfill_events}
use rescue_proxy.Execution.Connection.{Connection}
use rescue_proxy.Execution.Start.{Rocketpool, Feed, is_stale, init}
use rescue_proxy.Execution.Start.Synced.{CatchesUp, no_gap, IsReached, Started, init-Started_warm}
use rescue_proxy.Execution.Start.Future.{init-Started_future}
use rescue_proxy.Tests.Fixtures.{pool, chain}
use rescue_proxy.Tests.Sqlite.{Db, Files as Disk, library, small_laws, small_disk, small_disk_laws}
use rescue_proxy.Tests.Snapshots.{running, running-Works, starting}
use rescue_proxy.Tests.Starting.{rocketpool-IsReached, rocketpool, on_chain, feed, contracts}

-- The process that starts after `running` has stopped, at height 100.
abbrev restarted : Connection (SqliteCache Db Disk)
restarted = record {
  el = record { cache = starting; m = [] };
  shutdown = false;
  shutdown_cb = none;
  log_sub = 0;
  head_sub = 0;
  unsubscribed = [];
  slept = 0;
}

abbrev loaded : SqliteCache Db Disk
loaded = (Files.init library small_disk starting).1

loads :
    ((Files.init library small_disk starting) ≡ (ok tt, loaded))
    × (contents library small_laws loaded ≡ contents library small_laws running)
    × (small_laws.view.healthy loaded.db ≡ true)
loads =
    let (saved, result, same, works) =
      init-deinit_roundtrip library small_laws small_disk small_disk_laws running starting 100
        running-Works refl (ground arith) refl refl in
    (λ i. (result i, loaded), same, works.db)

loaded_height : loaded.highest_block ≡ pos 100
loaded_height = ap (λ (v : Contents). v.highest) loads.1

loads_cache : (sqlite_cache library small_disk).init starting ≡ (ok tt, loaded)
unfolding sqlite_cache
loads_cache = loads.0

fresh : is_stale (pos 103) loaded.highest_block ≡ false
unfolding is_stale ◌-ℤ◌ int64_of_big int64_of_uint64
fresh = rw loaded_height refl

abbrev quiet : Feed
quiet = record feed { client = record feed.client { latest = some (pos 100) } }

at_height : ltb_ℤ (pos 100) (loaded.highest_block +ℤ pos 1) ≡ true
unfolding ◌+ℤ◌
at_height = rw loaded_height refl

up_to_date :
    CatchesUp contracts quiet
      (contents library small_laws loaded)
      (contents library small_laws loaded)
up_to_date = no_gap (pos 100) refl at_height

init-Started_warm_example :
    Started
      (sqlite_laws library small_laws small_disk)
      contracts
      (contents library small_laws loaded)
      (7, 8)
      (init (sqlite_cache library small_disk) rocketpool quiet restarted)
unfolding sqlite_laws
init-Started_warm_example =
    init-Started_warm (sqlite_laws library small_laws small_disk) rocketpool quiet (pos 103) pool
      pool pool rocketpool-IsReached 7 8 refl refl restarted loaded
      (contents library small_laws loaded) loads_cache loads.2 fresh (rw loaded_height refl)
      up_to_date

-- The chain is at block 30, far below the snapshot.
abbrev behind : Rocketpool
behind = record rocketpool { header = some (pos 30) }

abbrev at_30 : Client
at_30 = record { latest = some (pos 30); filter_logs = λ start stop. some [] }

behind-IsReached : IsReached behind (pos 30) pool pool pool
behind-IsReached = record {
  dial = refl;
  new_rocket_pool = refl;
  latest = refl;
  finds_manager = refl;
  finds_minipools = refl;
  finds_pool = refl;
}

ahead : is_stale (pos 30) loaded.highest_block ≡ true
unfolding is_stale ◌-ℤ◌ int64_of_big int64_of_uint64
ahead = rw loaded_height refl

init-Started_future_example :
    let lagging = record feed { client = at_30 } in
    let after = init (sqlite_cache library small_disk) behind lagging restarted in
    (after.0 ≡ ok contracts)
    × (contents library small_laws after.1.el.cache
        ≡ with_highest (pos 30) (
            preloaded on_chain
              (alice ∷ [])
              (contents library small_laws (Sqlite.reset library loaded).1)))
    × IsCleared (contents library small_laws (Sqlite.reset library loaded).1)
    × ((contents library small_laws after.1.el.cache).highest ≡ loaded.highest_block)
    × (backfill_events
          (sqlite_cache library small_disk)
          contracts
          chain
          (record at_30 { latest = some (pos 99) })
          after.1.el
        ≡ (ok nil, after.1.el))
init-Started_future_example =
    init-Started_future library small_laws small_disk behind (record feed { client = at_30 })
      (pos 30) pool pool pool behind-IsReached 7 8 refl refl on_chain restarted loaded (pos 30)
      (pos 99) (record at_30 { latest = some (pos 99) }) loads_cache loads.2 ahead
      (rw loaded_height (ground arith)) refl (rw loaded_height (ground arith)) refl
      (rw loaded_height (ground arith))
      (record { nodes = refl; state = λ a. refl; distributor = λ a. refl; minipools = λ a. refl })
