-- ===== src/Tests/Stopping.antt =====
-- A stop with an event and a header that wait, and the next start, over the small SQLite.
use rescue_proxy.Prelude.{List, ◌≡◌, true, some, false, [], ◌∷◌, refl, arith}
use rescue_proxy.Prelude.Int.{pos, max_ℤ, int64_of_uint64}
use rescue_proxy.Prelude.Exec.{ok}
use rescue_proxy.Cache.Sqlite.{SqliteCache}
use rescue_proxy.Cache.Sqlite.Transactions.{contents}
use rescue_proxy.Cache.Sqlite.Files
use rescue_proxy.Cache.Sqlite.Files.{sqlite_cache}
use rescue_proxy.Prelude.Tests.{list_beq}
use rescue_proxy.Execution.Events.{handle_event, handle_node_event}
use rescue_proxy.Execution.Events.Changes.{apply, apply_at}
use rescue_proxy.Execution.Connection.{
  Connection, Message, listen, receive, begin_deinit, handle_subscription_error, event, header,
  log_error, events_closed, headers_closed,
}
use rescue_proxy.Execution.Connection.Drain.{
  Drains, event_left, events_end, log_sub_ends, header_left, headers_end, drained as drained_now,
}
use rescue_proxy.Cache.{Contents, with_highest}
use rescue_proxy.Execution.Start.{deinit}
use rescue_proxy.Execution.Start.Stopped.{drained, deinit-init_restart}
use rescue_proxy.Tests.Fixtures.{contracts, chain}
use rescue_proxy.Tests.Chain.{left_pool, leaves, says, dead}
use rescue_proxy.Tests.Sqlite.{Db, Files as Disk, library, small_laws, small_disk, small_disk_laws}
use rescue_proxy.Tests.Snapshots.{running, running-Works, starting}

abbrev connected : Connection (SqliteCache Db Disk)
connected = record {
  el = record { cache = running; m = [] };
  shutdown = false;
  shutdown_cb = some (7, 8);
  log_sub = 7;
  head_sub = 8;
  unsubscribed = [];
  slept = 0;
}

-- An event and a header wait, and a subscription fails between them.
abbrev last_messages : List Message
last_messages =
    event chain left_pool ∷ events_closed ∷ log_error dead ∷ header (pos 102) ∷ headers_closed ∷ []

abbrev stopped : SqliteCache Db Disk
stopped = drained library small_laws small_disk small_disk_laws contracts last_messages connected

abbrev next : SqliteCache Db Disk
next = record starting {
  path = stopped.path;
  disk =
      (deinit (sqlite_cache library small_disk) contracts last_messages connected).1.el.cache.disk;
}

abbrev at_last : Contents
at_last = with_highest (pos 102) (apply_at 101 leaves (contents library small_laws running))

run : Drains contracts false false last_messages (contents library small_laws running) at_last
run = event_left false chain left_pool leaves _ _ _ says (
    events_end false false _ _ _ refl (
      log_sub_ends true false dead _ _ _ refl
        (header_left true (pos 102) _ _ _ (headers_end true false _ _ _ refl (drained_now [] _)))))

height : at_last.highest ≡ pos 102
unfolding apply max_ℤ int64_of_uint64
height = refl

ready : small_disk_laws.ready stopped.path stopped.disk ≡ true
unfolding small_disk_laws listen receive handle_event list_beq handle_node_event sqlite_cache
    begin_deinit handle_subscription_error int64_of_uint64
ready = refl

deinit-init_restart_example :
    ((deinit (sqlite_cache library small_disk) contracts last_messages connected).0 ≡ ok true)
    × ((Files.init library small_disk next).0 ≡ ok tt)
    × (contents library small_laws (Files.init library small_disk next).1 ≡ at_last)
deinit-init_restart_example =
    deinit-init_restart library small_laws small_disk small_disk_laws contracts last_messages
      connected (7, 8) at_last next 102 refl running-Works.db run height (ground arith) ready refl
      refl
