-- ===== src/Tests/Sqlite.antt =====
-- An SQLite that never fails, over lists of rows, and a disk beside it, as the parameters of the SQLite cache.
use rescue_proxy.Prelude.{
  Bytes, Bool, true, false, Option, none, some, List, [], ◌∷◌, ◌≡◌, ◌≢◌, inl, inr, refl, arith, map,
  ◌==◌, ◌||◌, nat_eq, list_eq, if◌then◌else◌, Bool-cases, beq_refl, All, ap,
}
use rescue_proxy.Prelude.Map
use rescue_proxy.Prelude.Map.{keys}
use rescue_proxy.Prelude.Int.{ℤ}
use rescue_proxy.Tests.Padding.{to_address, to_address-bytes}
use rescue_proxy.Cache.{Address, address_eq, is_listed, is_some}
use rescue_proxy.Cache.Sqlite.{Rows, Table, nodes, minipools, highest_block, Database, Library}
use rescue_proxy.Cache.Sqlite.Sql.{
  Tables, View, row_of, Scans, IsQuery, IsExec, IsAutocommit, SqlLaws, with_minipool_row,
  with_node_row, with_highest_row, without,
}
use rescue_proxy.Cache.Sqlite.Files.{Stat, present, missing, unreadable, Disk, snapshot_path}
use rescue_proxy.Cache.Sqlite.Files.Snapshot.{DiskLaws}

pub record Stored : Type 0 where
  pub minipools : Map.Map Bytes Bytes
  pub nodes : List (Address × (ℤ × Bytes))
  pub highest : Option ℤ

-- The row of a node, whose key is always an address.
abbrev pub find_node : Bytes → List (Address × (ℤ × Bytes)) → Option (ℤ × Bytes)
find_node k [] = none
find_node k ((a, row) ∷ more) = if a.bytes == k then some row else find_node k more

abbrev pub addresses_of : List (Address × (ℤ × Bytes)) → List Bytes
addresses_of [] = []
addresses_of ((a, row) ∷ more) = a.bytes ∷ addresses_of more

-- What is committed, and what the transaction has made of it.
pub record Db : Type 0 where
  pub committed : Stored
  pub working : Stored

abbrev pub nothing : Stored
nothing = record { minipools = []; nodes = []; highest = none }

abbrev pub empty_db : Db
empty_db = record { committed = nothing; working = nothing }

abbrev pub emptied : Table → Stored → Stored
emptied nodes s = record s { nodes = [] }
emptied minipools s = record s { minipools = [] }
emptied highest_block s = record s { highest = none }

abbrev pub begin : Db → Bool × Db
begin d = (true, record d { working = d.committed })

abbrev pub exec : (Stored → Stored) → Db → Bool × Db
exec f d = (true, record d { working = f d.working })

abbrev pub at_once : (Stored → Stored) → Db → Bool × Db
at_once f d = (true, record { committed = f d.committed; working = f d.committed })

abbrev pub asked : {A : Type 0} → (Stored → List A) → Db → Rows A × Db
asked f d = (some (map some (f d.working)), d)

abbrev pub small_db : Database Db
small_db = record {
  begin_tx = begin;
  commit = λ d. (true, record d { committed = d.working });
  rollback = λ d. record d { working = d.committed };
  select_minipool = λ k. asked (λ s. row_of (Map.get k s.minipools));
  select_node = λ k. asked (λ s. row_of (find_node k s.nodes));
  select_highest_block = asked (λ s. row_of s.highest);
  select_addresses = asked (λ s. addresses_of s.nodes);
  replace_minipool = λ k a. exec (λ s. record s { minipools = (k, a) ∷ s.minipools });
  replace_node = λ k n a. exec (λ s. record s { nodes = (to_address k, (n, a)) ∷ s.nodes });
  replace_highest_block = λ n. exec (λ s. record s { highest = some n });
  delete_from = λ t. at_once (emptied t);
  create_table = λ t. at_once (λ s. s);
  prepare_statements = at_once (λ s. s);
}

abbrev pub library : Library Db
library = record { sql = small_db; bytes_to_address = to_address }

abbrev pub tables_of : Stored → Tables
unfolding Map.get
tables_of s = record {
  minipools = λ k. Map.get k s.minipools;
  nodes = λ k. find_node k s.nodes;
  highest = s.highest;
}

abbrev pub view : View Db
view = record {
  committed = λ d. tables_of d.committed;
  working = λ d. tables_of d.working;
  healthy = λ d. true;
}

Scans-map : {A : Type 0} (rows : List A) → Scans (map some rows) rows
Scans-map [] = tt
Scans-map (a ∷ rows) = (inl refl, Scans-map rows)

pub never : {P : Type 0} → true ≡ false → P
never h = absurd (ground (arith, h))

pub IsQuery-asked : {A : Type 0} (f : Stored → List A) → IsQuery view (asked f) (λ d. f d.working)
IsQuery-asked f = record {
  stays_healthy = λ d h. refl;
  kept = λ d. refl;
  working_kept = λ d. refl;
  exact = λ d h. refl;
  sound = λ d. inr (map some (f d.working), refl, Scans-map (f d.working));
}

pub IsExec-exec :
    (f : Stored → Stored) (change : Tables → Tables)
    → ((s : Stored) → tables_of (f s) ≡ change (tables_of s))
    → IsExec view (exec f) change
IsExec-exec f change same = record {
  reliable = record { exact = λ d h. refl; stays_healthy = λ d h. refl };
  kept = λ d. refl;
  writes = λ d h. same d.working;
}

pub IsAutocommit-at_once :
    (f : Stored → Stored) (change : Tables → Tables)
    → ((s : Stored) → tables_of (f s) ≡ change (tables_of s))
    → IsAutocommit view (at_once f) change
IsAutocommit-at_once f change same = record {
  reliable = record { exact = λ d h. refl; stays_healthy = λ d h. refl };
  committed = λ d h. same d.committed;
  kept = λ d h. never h;
}

pub listed_keys :
    (k : Bytes) (m : List (Address × (ℤ × Bytes)))
    → is_listed k (addresses_of m) ≡ is_some (find_node k m)
unfolding is_listed
listed_keys k [] = refl
listed_keys k ((a, row) ∷ more) = elim (Bool-cases (a.bytes == k)) [
  | inl same ↦ rw same refl
  | inr differs ↦ rw differs (listed_keys k more)
]

pub canonical_keys :
    (m : List (Address × (ℤ × Bytes))) → All (λ b. (to_address b).bytes ≡ b) (addresses_of m)
canonical_keys [] = tt
canonical_keys ((a, row) ∷ more) =
    (ap (λ (b : Address). b.bytes) (to_address-bytes a), canonical_keys more)

pub replaced :
    (a : Address) (n : ℤ) (d : Bytes) (s : Stored)
    → tables_of (record s { nodes = (to_address a.bytes, (n, d)) ∷ s.nodes })
      ≡ with_node_row a.bytes n d (tables_of s)
unfolding Map.get
replaced a n d s =
    ap (λ b. tables_of (record s { nodes = (b, (n, d)) ∷ s.nodes })) (to_address-bytes a)

pub emptied_lem : (t : Table) (s : Stored) → tables_of (emptied t s) ≡ without t (tables_of s)
unfolding Map.get
emptied_lem nodes s = refl
emptied_lem minipools s = refl
emptied_lem highest_block s = refl

unfoldable pub small_laws : SqlLaws library
unfolding Map.get
small_laws = record {
  view = view;
  begins = record {
    reliable = record { exact = λ d h. refl; stays_healthy = λ d h. refl };
    kept = λ d. refl;
    sees = λ d h. refl;
  };
  commits = record {
    reliable = record { exact = λ d h. refl; stays_healthy = λ d h. refl };
    committed = λ d h. refl;
    kept = λ d h. never h;
  };
  rolls_back = λ d. refl;
  rolls_back_healthy = λ d h. refl;
  selects_minipool = λ k. IsQuery-asked (λ s. row_of (Map.get k s.minipools));
  selects_node = λ k. IsQuery-asked (λ s. row_of (find_node k s.nodes));
  selects_highest_block = IsQuery-asked (λ s. row_of s.highest);
  addresses = λ d. addresses_of d.working.nodes;
  selects_addresses = IsQuery-asked (λ s. addresses_of s.nodes);
  all_addresses = λ d k. listed_keys k d.working.nodes;
  replaces_minipool = λ k a.
      IsExec-exec (λ s. record s { minipools = (k, a) ∷ s.minipools }) (with_minipool_row k a)
        (λ s. refl);
  replaces_node = λ k n a.
      IsExec-exec (λ s. record s { nodes = (to_address k.bytes, (n, a)) ∷ s.nodes })
        (with_node_row k.bytes n a) (λ s. replaced k n a s);
  replaces_highest_block =
      λ n. IsExec-exec (λ s. record s { highest = some n }) (with_highest_row n) (λ s. refl);
  deletes = λ t. IsAutocommit-at_once (emptied t) (without t) (emptied_lem t);
  creates = λ t. IsAutocommit-at_once (λ s. s) (λ u. u) (λ s. refl);
  prepares = IsAutocommit-at_once (λ s. s) (λ u. u) (λ s. refl);
  canonical = λ d h. canonical_keys d.working.nodes;
  address_of_bytes = to_address-bytes;
}

-- Directories, and databases in files.
pub record Files : Type 0 where
  pub dirs : Bytes → Bool
  pub files : Bytes → Option Db

abbrev pub opened : Option Db → Db
opened none = empty_db
opened (some d) = d

abbrev pub there_if : Bool → Stat
there_if true = present
there_if false = missing

abbrev pub stat_of : Bytes → Files → Stat
stat_of p f = there_if (f.dirs p || is_some (f.files p))

abbrev pub small_disk : Disk Db Files
small_disk = record {
  stat = stat_of;
  mkdir_all = λ mode p f. (true, record f { dirs = λ q. if p == q then true else f.dirs q });
  remove = λ p f. (true, record f { files = λ q. if p == q then none else f.files q });
  open_memory = λ f. some empty_db;
  open_file = λ p f. some (opened (f.files p));
  close_file = λ p d f. record f { files = λ q. if p == q then some d else f.files q };
  conn = λ d. true;
  is_sqlite_conn = λ d. true;
  backup = λ dst src. (true, dst);
  step = λ dst src. ((true, true), record { committed = src.committed; working = src.committed });
  finish = λ dst src. (true, dst);
}

pub there_if_readable : (b : Bool) → there_if b ≢ unreadable
there_if_readable true = λ e. ground (arith, e)
there_if_readable false = λ e. ground (arith, e)

pub or_true : (b : Bool) → there_if (b || true) ≡ present
or_true true = refl
or_true false = refl

pub closed : (p : Bytes) (d : Db) (f : Files) → (if p == p then some d else f.files p) ≡ some d
closed p d f = rw (beq_refl p) refl

pub reopened : (d d' : Db) (o : Option Db) → o ≡ some d → some (opened o) ≡ some d' → d' ≡ d
reopened d d' none e e' = ground (arith, e)
reopened d d' (some d1) e e' = cc

unfoldable pub small_disk_laws : DiskLaws small_disk small_laws.view
unfolding small_laws
small_disk_laws = record {
  ready = λ p f. f.dirs p;
  finds = λ p f h. rw h refl;
  readable =
      λ p f h. there_if_readable (f.dirs (snapshot_path p) || is_some (f.files (snapshot_path p)));
  removes = λ p f h. (refl, h);
  opens_memory = λ p f h. (empty_db, refl, refl);
  opens_file = λ p f h. (opened (f.files (snapshot_path p)), refl, refl);
  closes = λ p d f h. (h, rw (closed (snapshot_path p) d f) (or_true (f.dirs (snapshot_path p))));
  reopens = λ p d d' f e.
      ap (λ (u : Db). tables_of u.committed)
        (reopened d d' (if p == p then some d else f.files p) (closed p d f) e);
  connects = λ d h. (refl, refl);
  backs_up = λ dst src h h'. (refl, refl, refl, refl, refl);
}
