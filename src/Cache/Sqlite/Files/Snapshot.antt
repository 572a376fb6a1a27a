-- ===== src/Cache/Sqlite/Files/Snapshot.antt =====
-- What the cache relies on of files and of backups, and what a step that works leaves behind.
use rescue_proxy.Prelude.{Bytes, Bool, true, some, ◌≡◌, ◌≢◌, ◌⊎◌, refl, inl, inr}
use rescue_proxy.Prelude.Exec.{Result, ok}
use rescue_proxy.Cache.{address_eq, CacheError}
use rescue_proxy.Cache.Sqlite.{SqliteCache, Library}
use rescue_proxy.Cache.Sqlite.Sql.{Tables, View, SqlLaws}
use rescue_proxy.Cache.Sqlite.Transactions.{tables, healthy}
use rescue_proxy.Cache.Sqlite.Files.{
  Stat, present, missing, unreadable, Disk, snapshot_path, clone_sql_db,
}

-- What the cache relies on of the file system and of SQLite's backup, as long as both work.
pub record DiskLaws {D F : Type 0} (io : Disk D F) (v : View D) : Type 0 where
  -- the directory of the cache is there, and files in it can be read, made and removed
  pub ready : Bytes → F → Bool
  pub finds : (path : Bytes) (f : F) → ready path f ≡ true → io.stat path f ≡ present
  pub readable :
      (path : Bytes) (f : F) → ready path f ≡ true → io.stat (snapshot_path path) f ≢ unreadable
  pub removes :
      (path : Bytes) (f : F)
      → ready path f ≡ true
      → ((io.remove (snapshot_path path) f).0 ≡ true)
        × (ready path (io.remove (snapshot_path path) f).1 ≡ true)
  pub opens_memory :
      (path : Bytes) (f : F)
      → ready path f ≡ true
      → (d : D) × (io.open_memory f ≡ some d) × (v.healthy d ≡ true)
  pub opens_file :
      (path : Bytes) (f : F)
      → ready path f ≡ true
      → (d : D) × (io.open_file (snapshot_path path) f ≡ some d) × (v.healthy d ≡ true)
  -- a file that was closed is there, with what was committed
  pub closes :
      (path : Bytes) (d : D) (f : F)
      → ready path f ≡ true
      → let f' = io.close_file (snapshot_path path) d f in
        (ready path f' ≡ true) × (io.stat (snapshot_path path) f' ≡ present)
  pub reopens :
      (path : Bytes) (d d' : D) (f : F)
      → io.open_file path (io.close_file path d f) ≡ some d'
      → v.committed d' ≡ v.committed d
  pub connects : (d : D) → v.healthy d ≡ true → (io.conn d ≡ true) × (io.is_sqlite_conn d ≡ true)
  pub backs_up :
      (dst src : D)
      → v.healthy dst ≡ true
      → v.healthy src ≡ true
      → let started = io.backup dst src in
        let stepped = io.step started.1 src in
        let finished = io.finish stepped.1 src in
        (started.0 ≡ true)
        × (stepped.0 ≡ (true, true))
        × (finished.0 ≡ true)
        × (v.healthy finished.1 ≡ true)
        × (v.committed finished.1 ≡ v.committed src)

pub Stat-cases : (s : Stat) → (s ≡ present) ⊎ ((s ≡ missing) ⊎ (s ≡ unreadable))
Stat-cases present = inl refl
Stat-cases missing = inr (inl refl)
Stat-cases unreadable = inr (inr refl)

module _ {D F : Type 0} (x : Library D) (l : SqlLaws x) (io : Disk D F)
    (k : DiskLaws io l.view) where
  pub clone_lem :
      (dst src : D)
      → l.view.healthy dst ≡ true
      → l.view.healthy src ≡ true
      → ((clone_sql_db io dst src).0 ≡ true)
        × (l.view.healthy (clone_sql_db io dst src).1 ≡ true)
        × (l.view.committed (clone_sql_db io dst src).1 ≡ l.view.committed src)
  unfolding clone_sql_db
  clone_lem dst src h h' =
      let (c, c') = k.connects src h' in
      let (e, e') = k.connects dst h in
      let (a, b, f, g, same) = k.backs_up dst src h h' in rw (c, e, e', c', a, b, f) (refl, g, same)

  -- A working cache: the database has no fault pending, and its directory is there and can be used.
  pub record Works (s : SqliteCache D F) : Type 0 where
    pub db : healthy x l s ≡ true
    pub disk : k.ready s.path s.disk ≡ true

  -- A step that succeeds, and leaves a working cache with the tables `t` at the same path and height.
  pub record Did (t : Tables) (s : SqliteCache D F)
      (after : Result CacheError (Unit {0}) × SqliteCache D F) : Type 0 where
    pub result : after.0 ≡ ok tt
    pub works : Works after.1
    pub holds : tables x l after.1 ≡ t
    pub path : after.1.path ≡ s.path
    pub height : after.1.highest_block ≡ s.highest_block
