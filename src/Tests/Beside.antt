-- ===== src/Tests/Beside.antt =====
-- The two caches side by side, a query that ends at an error, and the ring of epochs.
use rescue_proxy.Prelude.{
  ap, true, false, none, some, [], ◌∷◌, ◌≡◌, ◌≢◌, ◌<◌, refl, arith, nat_eq, list_eq, List, Bool,
  ◌==◌, if◌then◌else◌,
}
use rescue_proxy.Prelude.Tests.{list_beq}
use rescue_proxy.Prelude.Map
use rescue_proxy.Prelude.Int.{pos}
use rescue_proxy.Prelude.Exec.{ok}
use rescue_proxy.Cache.{address_eq, Address, NodeInfo}
use rescue_proxy.Cache.Maps.{maps_cache}
use rescue_proxy.Cache.Maps.Laws.{maps_laws}
use rescue_proxy.Cache.Same.{
  Op, get_minipool, add_minipool, get_node, get_highest, run, run-maps_sqlite,
}
use rescue_proxy.Execution.{El}
use rescue_proxy.Cache.Sqlite.{SqliteCache}
use rescue_proxy.Cache.Sqlite.Transactions.{address_in, info_in, contents}
use rescue_proxy.Cache.Sqlite.Files.{sqlite_cache}
use rescue_proxy.Execution.Recipient.{validator_fee_recipient}
use rescue_proxy.Execution.Recipient.Truncated.{cut_short, validator_fee_recipient_truncated}
use rescue_proxy.Metrics.Epoch.{Epochs, on_head, previous_epoch_idx}
use rescue_proxy.Metrics.Epoch.Bounds.{begins, heads, Reachable-bounds}
use rescue_proxy.Tests.Fixtures.{alice, pool, distributor, pubkey, warm}
use rescue_proxy.Tests.Sqlite.{Db, Files, library, small_laws, small_disk}
use rescue_proxy.Tests.Snapshots.{running}
use rescue_proxy.Tests.Starting.{contracts}

healthy_db : small_laws.view.healthy running.db ≡ true
unfolding small_laws
healthy_db = refl

owned_by_alice : (contents library small_laws running).minipools pubkey ≡ some alice
unfolding small_laws Map.get list_beq
owned_by_alice = refl

owner_is_not_pool : alice ≢ pool
owner_is_not_pool e = absurd (ground (arith, ap (λ (a : Address). a.bytes == pool.bytes) e))

abbrev asked : El (SqliteCache Db Files)
asked = record { cache = running; m = [] }

validator_fee_recipient_truncated_example :
    ((validator_fee_recipient
        (sqlite_cache library small_disk)
        contracts
        pubkey
        (some pool)
        asked).0
      ≡ ok (none, true))
    × ((validator_fee_recipient
          (sqlite_cache (cut_short library) small_disk)
          contracts
          pubkey
          (some pool)
          asked).0
        ≡ ok (none, false))
validator_fee_recipient_truncated_example =
    validator_fee_recipient_truncated library small_disk contracts small_laws pubkey pool alice
      asked healthy_db owned_by_alice owner_is_not_pool

abbrev script : List Op
script =
    get_minipool pubkey
    ∷ add_minipool alice.bytes pool
    ∷ get_minipool alice.bytes
    ∷ get_node alice
    ∷ get_highest
    ∷ []

same_minipool :
    (found : Bool)
    → (if found then some alice else none)
      ≡ address_in library (if found then some alice.bytes else none)
same_minipool true = refl
same_minipool false = refl

abbrev alice_info : NodeInfo
alice_info = record { in_smoothing_pool = true; fee_distributor = distributor }

same_node :
    (found : Bool)
    → (if found then some alice_info else none)
      ≡ info_in library (if found then some (pos 1, distributor.bytes) else none)
same_node true = refl
same_node false = refl

same_start : maps_laws.contents warm ≡ contents library small_laws running
unfolding maps_laws small_laws Map.get
same_start i = record {
  minipools = λ p. same_minipool (pubkey == p) i;
  nodes = λ a. same_node (alice == a) i;
  highest = pos 100;
}

run-maps_sqlite_example :
    ((run maps_cache script warm).0 ≡ (run (sqlite_cache library small_disk) script running).0)
    × (maps_laws.contents (run maps_cache script warm).1
        ≡ contents library small_laws (run (sqlite_cache library small_disk) script running).1)
run-maps_sqlite_example =
    run-maps_sqlite library small_laws small_disk script warm running healthy_db same_start

abbrev none_seen : Epochs
none_seen = record { current_idx = 0; epochs = λ i. []; registry = [] }

Reachable-bounds_example :
    ((on_head 6 none_seen).current_idx < 4)
    × (previous_epoch_idx (on_head 6 none_seen) < 4)
    × (previous_epoch_idx (on_head 6 none_seen) ≢ (on_head 6 none_seen).current_idx)
Reachable-bounds_example =
    Reachable-bounds none_seen (on_head 6 none_seen) (ground arith) (heads 6 none_seen begins)
