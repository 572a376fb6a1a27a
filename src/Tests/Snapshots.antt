-- ===== src/Tests/Snapshots.antt =====
-- The SQLite cache over the small SQLite: its contract, and a restart.
use rescue_proxy.Prelude.{true, none, [], ◌∷◌, ◌≡◌, refl, arith}
use rescue_proxy.Prelude.Int.{pos}
use rescue_proxy.Prelude.Exec.{ok}
use rescue_proxy.Cache.{address_eq, CacheLaws}
use rescue_proxy.Cache.Sqlite.{SqliteCache}
use rescue_proxy.Cache.Sqlite.Transactions.{contents_of, contents}
use rescue_proxy.Cache.Sqlite.Laws.{sqlite_cache-CacheLaws}
use rescue_proxy.Cache.Sqlite.Files.{sqlite_cache, init, deinit}
use rescue_proxy.Cache.Sqlite.Files.Snapshot.{Works}
use rescue_proxy.Cache.Sqlite.Files.Restart.{init-deinit_roundtrip}
use rescue_proxy.Tests.Fixtures.{alice, distributor, pubkey}
use rescue_proxy.Tests.Sqlite.{
  Stored, Db, Files, library, small_laws, small_disk, small_disk_laws, empty_db,
}

abbrev stored : Stored
stored = record {
  minipools = (pubkey, alice.bytes) ∷ [];
  nodes = (alice, (pos 1, distributor.bytes)) ∷ [];
  highest = none;
}

abbrev pub running : SqliteCache Db Files
running = record {
  path = 0x2f ∷ [];
  db = record { committed = stored; working = stored };
  disk = record { dirs = λ p. true; files = λ p. none };
  highest_block = pos 100;
  m = [];
}

-- The next process.
abbrev pub starting : SqliteCache Db Files
starting = record {
  path = 0x2f ∷ [];
  db = empty_db;
  disk = (deinit library small_disk running).1.disk;
  highest_block = pos 0;
  m = [];
}

pub running-Works : Works library small_laws small_disk small_disk_laws running
unfolding small_laws small_disk_laws
running-Works = record { db = refl; disk = refl }

sqlite_cache-CacheLaws_example :
    (laws : CacheLaws (sqlite_cache library small_disk)) × ((s : SqliteCache Db Files)
      → (laws.contents s ≡ contents_of library (small_laws.view.committed s.db) s.highest_block)
        × (laws.healthy s ≡ small_laws.view.healthy s.db))
sqlite_cache-CacheLaws_example = sqlite_cache-CacheLaws library small_laws small_disk

init-deinit_roundtrip_example :
    ((deinit library small_disk running).0 ≡ ok tt)
    × ((init library small_disk starting).0 ≡ ok tt)
    × (contents library small_laws (init library small_disk starting).1
        ≡ contents library small_laws running)
    × Works library small_laws small_disk small_disk_laws (init library small_disk starting).1
init-deinit_roundtrip_example =
    init-deinit_roundtrip library small_laws small_disk small_disk_laws running starting 100
      running-Works refl (ground arith) refl refl
