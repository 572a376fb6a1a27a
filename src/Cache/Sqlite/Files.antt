-- ===== src/Cache/Sqlite/Files.antt =====
-- executionlayer/sqlite-cache.go: opening the cache from its snapshot, and writing the snapshot. The file
-- system and SQLite's backup are parameters. Handles that are closed are not followed further.
pub mod Snapshot
pub mod Opened
pub mod Restart
use rescue_proxy.Prelude.{
  ℕ, Bytes, codes, Bool, true, false, Option, none, some, List, [], ◌∷◌, ◌++◌, String, not,
  if◌then◌else◌,
}
use rescue_proxy.Prelude.Int.{ℤ, pos, int64_of_big}
use rescue_proxy.Prelude.Exec.{Exec, Result, ok, err, pure, raise, ◌>>=◌, ◌>>◌}
use rescue_proxy.Cache.{address_eq, CacheError, failed, Cache}
use rescue_proxy.Cache.Sqlite.{
  Rows, Table, nodes, minipools, highest_block, SqliteCache, Library, M, or_failed, on_db, query,
  scan, transaction, get_minipool_node, add_minipool_node, get_node_info, add_node_info,
  for_each_node, reset, set_highest_block, get_highest_block,
}

-- os.Stat: no error, one that `os.IsNotExist` accepts, or another.
pub data Stat : Type 0 where
  present missing unreadable : Stat

-- The file system, and `*driver.SQLiteConn`.
pub record Disk (D F : Type 0) : Type 0 where
  pub stat : Bytes → F → Stat
  -- of the mode and the path
  pub mkdir_all : ℕ → Bytes → F → Bool × F
  pub remove : Bytes → F → Bool × F
  -- sql.Open of "file::memory:?cache=shared", and of a file
  pub open_memory : F → Option D
  pub open_file : Bytes → F → Option D
  -- what a handle of a file has committed stands in the file
  pub close_file : Bytes → D → F → F
  -- db.Conn, and whether it is a connection of the driver
  pub conn : D → Bool
  pub is_sqlite_conn : D → Bool
  -- of the destination and the source: Backup; Step(-1), which says whether it is done and whether it has
  -- no error; and Finish
  pub backup : D → D → Bool × D
  pub step : D → D → (Bool × Bool) × D
  pub finish : D → D → Bool × D

module _ {D F : Type 0} (io : Disk D F) where
  abbrev finished : D → (Bool × Bool) × D → Bool × D
  finished src ((done, no_error), dst) =
      if not done then (false, dst) else if not no_error then (false, dst) else io.finish dst src

  abbrev stepped : D → Bool × D → Bool × D
  stepped src (started, dst) = if not started then (false, dst) else finished src (io.step dst src)

  -- Whether it succeeds, and the destination.
  unfoldable pub clone_sql_db : D → D → Bool × D
  clone_sql_db dst src =
      if not (io.conn src)
      then (false, dst)
      else if not (io.conn dst)
      then (false, dst)
      else if not (io.is_sqlite_conn dst)
      then (false, dst)
      else if not (io.is_sqlite_conn src)
      then (false, dst)
      else stepped src (io.backup dst src)

unfoldable pub snapshot_path : Bytes → Bytes
snapshot_path path = path ++ codes "/rescue-proxy-cache.sql"

module _ {D F : Type 0} (x : Library D) (io : Disk D F) where
  abbrev pub on_disk : (F → Bool × F) → M D F (Unit {0})
  on_disk op s = (if (op s.disk).0 then ok tt else err failed, record s { disk = (op s.disk).1 })

  abbrev pub open_db : (F → Option D) → M D F D
  open_db open_it s = (or_failed (open_it s.disk), s)

  abbrev pub make_if : Stat → M D F (Unit {0})
  make_if present s = (ok tt, s)
  make_if missing s = on_disk (io.mkdir_all 0x180 s.path) s
  make_if unreadable s = (err failed, s)

  -- The directory, made with the mode 0600 if it is not there.
  unfoldable pub make_path : M D F (Unit {0})
  make_path s = make_if (io.stat s.path s.disk) s

  abbrev pub load_from : M D F (Unit {0})
  load_from s =
      (open_db (io.open_file (snapshot_path s.path)) >>= λ src.
      on_db (λ db. clone_sql_db io db src))
        s

  abbrev pub load_if : Stat → M D F (Unit {0})
  load_if missing s = (ok tt, s)
  load_if unreadable s = (err failed, s)
  load_if present s = load_from s

  -- The snapshot, if there is one.
  unfoldable pub load_snapshot : M D F (Unit {0})
  load_snapshot s = load_if (io.stat (snapshot_path s.path) s.disk) s

  unfoldable pub create_tables : M D F (Unit {0})
  create_tables = do
    on_db (x.sql.create_table nodes)
    on_db (x.sql.create_table minipools)
    on_db (x.sql.create_table highest_block)

  abbrev pub height_in : List (Option ℤ) → M D F (Unit {0})
  height_in [] = on_db x.sql.commit
  height_in (row ∷ more) = do
    block ← scan row
    on_db x.sql.commit
    λ s. (ok tt, set_highest_block block s)

  -- The highest block of the snapshot, if it has one.
  unfoldable pub read_height : M D F (Unit {0})
  read_height = transaction x.sql (do rows ← query x.sql.select_highest_block; height_in rows)

  unfoldable pub init : M D F (Unit {0})
  unfolding make_path load_snapshot create_tables read_height
  init = do
    λ s. (ok tt, record s { m = []; highest_block = pos 0 })
    db ← open_db io.open_memory
    λ s. (ok tt, record s { db = db })
    make_path
    load_snapshot
    create_tables
    on_db x.sql.prepare_statements
    read_height

  abbrev pub delete_if : Stat → M D F (Unit {0})
  delete_if missing s = (ok tt, s)
  delete_if present s = on_disk (io.remove (snapshot_path s.path)) s
  delete_if unreadable s = (err failed, s)

  -- A snapshot that is there is deleted first.
  unfoldable pub delete_snapshot : M D F (Unit {0})
  delete_snapshot s = delete_if (io.stat (snapshot_path s.path) s.disk) s

  -- The clone, and the deferred close.
  abbrev pub save_to : D → M D F (Unit {0})
  save_to dst s =
      let (good, dst') = clone_sql_db io dst s.db in
      (
        if good then ok tt else err failed,
        record s { disk = io.close_file (snapshot_path s.path) dst' s.disk },
      )

  unfoldable pub serialize : M D F (Unit {0})
  unfolding delete_snapshot
  serialize = do
    delete_snapshot
    dst ← (λ s. open_db (io.open_file (snapshot_path s.path)) s)
    save_to dst

  unfoldable pub deinit : M D F (Unit {0})
  unfolding serialize
  deinit s =
      transaction x.sql
        (do
          on_db (x.sql.replace_highest_block (int64_of_big s.highest_block))
          on_db x.sql.commit
          serialize)
        s

  unfoldable pub sqlite_cache : Cache (SqliteCache D F)
  unfolding init get_minipool_node add_minipool_node get_node_info add_node_info for_each_node
      set_highest_block get_highest_block deinit reset
  sqlite_cache = record {
    init = init;
    get_minipool_node = get_minipool_node x;
    add_minipool_node = add_minipool_node x;
    get_node_info = get_node_info x;
    add_node_info = add_node_info x;
    for_each_node = for_each_node x;
    set_highest_block = set_highest_block;
    get_highest_block = get_highest_block;
    deinit = deinit;
    reset = reset x;
  }
