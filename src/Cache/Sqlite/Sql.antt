-- ===== src/Cache/Sqlite/Sql.antt =====
-- What the cache relies on of SQLite and of go-ethereum's addresses: transactions are atomic, a statement
-- does what its text says, and a fault shows as an error. A query's rows do not end early, then;
-- Execution/Recipient/Truncated is about those that do.
use rescue_proxy.Prelude.{
  All, Bytes, Bool, true, false, Option, none, some, List, [], ◌∷◌, ◌≡◌, ◌⊎◌, map, ◌==◌, nat_eq,
  list_eq, if◌then◌else◌,
}
use rescue_proxy.Prelude.Int.{ℤ}
use rescue_proxy.Cache.{address_eq, Address, is_listed, is_some}
use rescue_proxy.Cache.Sqlite.{Rows, Table, nodes, minipools, highest_block, Library}

-- The tables. One that was not created counts as empty.
pub record Tables : Type 0 where
  pub minipools : Bytes → Option Bytes
  pub nodes : Bytes → Option (ℤ × Bytes)
  pub highest : Option ℤ

abbrev pub with_minipool_row : Bytes → Bytes → Tables → Tables
with_minipool_row k v t = record t { minipools = λ j. if k == j then some v else t.minipools j }

abbrev pub with_node_row : Bytes → ℤ → Bytes → Tables → Tables
with_node_row k status d t = record t {
  nodes = λ j. if k == j then some (status, d) else t.nodes j;
}

abbrev pub with_highest_row : ℤ → Tables → Tables
with_highest_row n t = record t { highest = some n }

abbrev pub without : Table → Tables → Tables
without nodes t = record t { nodes = λ j. none }
without minipools t = record t { minipools = λ j. none }
without highest_block t = record t { highest = none }

-- The rows of a query by a primary key.
abbrev pub row_of : {A : Type 0} → Option A → List A
row_of none = []
row_of (some a) = a ∷ []

-- The rows that `Next` reaches and `Scan` reads: all of them, unless a `Scan` fails.
abbrev pub Scans : {A : Type 0} → List (Option A) → List A → Type 0
Scans [] [] = Unit
Scans (r ∷ rs) (a ∷ as') = ((r ≡ some a) ⊎ (r ≡ none)) × Scans rs as'
Scans _ _ = ⊥

-- What is committed, what the open transaction sees, and whether no fault is pending, in the calls or in
-- the rows.
pub record View (D : Type 0) : Type 0 where
  pub committed : D → Tables
  pub working : D → Tables
  pub healthy : D → Bool

module _ {D : Type 0} (v : View D) where
  -- A call that fails only where the handle is not healthy, and leaves a healthy one so.
  pub record IsReliable (op : D → Bool × D) : Type 0 where
    pub exact : (d : D) → v.healthy d ≡ true → (op d).0 ≡ true
    pub stays_healthy : (d : D) → v.healthy d ≡ true → v.healthy (op d).1 ≡ true

  pub record IsBegin (op : D → Bool × D) : Type 0 where
    pub reliable : IsReliable op
    pub kept : (d : D) → v.committed (op d).1 ≡ v.committed d
    pub sees : (d : D) → (op d).0 ≡ true → v.working (op d).1 ≡ v.committed d

  pub record IsQuery {A : Type 0} (q : D → Rows A × D) (answer : D → List A) : Type 0 where
    pub stays_healthy : (d : D) → v.healthy d ≡ true → v.healthy (q d).1 ≡ true
    pub kept : (d : D) → v.committed (q d).1 ≡ v.committed d
    pub working_kept : (d : D) → v.working (q d).1 ≡ v.working d
    pub exact : (d : D) → v.healthy d ≡ true → (q d).0 ≡ some (map some (answer d))
    pub sound :
        (d : D)
        → ((q d).0 ≡ none)
          ⊎ ((rows : List (Option A)) × ((q d).0 ≡ some rows) × Scans rows (answer d))

  -- A write inside a transaction.
  pub record IsExec (op : D → Bool × D) (change : Tables → Tables) : Type 0 where
    pub reliable : IsReliable op
    pub kept : (d : D) → v.committed (op d).1 ≡ v.committed d
    pub writes : (d : D) → (op d).0 ≡ true → v.working (op d).1 ≡ change (v.working d)

  pub record IsCommit (op : D → Bool × D) : Type 0 where
    pub reliable : IsReliable op
    pub committed : (d : D) → (op d).0 ≡ true → v.committed (op d).1 ≡ v.working d
    pub kept : (d : D) → (op d).0 ≡ false → v.committed (op d).1 ≡ v.committed d

  -- A statement outside of a transaction, which is one by itself.
  pub record IsAutocommit (op : D → Bool × D) (change : Tables → Tables) : Type 0 where
    pub reliable : IsReliable op
    pub committed : (d : D) → (op d).0 ≡ true → v.committed (op d).1 ≡ change (v.committed d)
    pub kept : (d : D) → (op d).0 ≡ false → v.committed (op d).1 ≡ v.committed d

pub record SqlLaws {D : Type 0} (x : Library D) : Type 0 where
  pub view : View D
  pub begins : IsBegin view x.sql.begin_tx
  pub commits : IsCommit view x.sql.commit
  -- after a commit it has no effect
  pub rolls_back : (d : D) → view.committed (x.sql.rollback d) ≡ view.committed d
  pub rolls_back_healthy : (d : D) → view.healthy d ≡ true → view.healthy (x.sql.rollback d) ≡ true
  pub selects_minipool :
      (k : Bytes)
      → IsQuery view (x.sql.select_minipool k) (λ d. row_of ((view.working d).minipools k))
  pub selects_node :
      (k : Bytes) → IsQuery view (x.sql.select_node k) (λ d. row_of ((view.working d).nodes k))
  pub selects_highest_block :
      IsQuery view x.sql.select_highest_block (λ d. row_of (view.working d).highest)
  -- each address of the table, in some order
  pub addresses : D → List Bytes
  pub selects_addresses : IsQuery view x.sql.select_addresses addresses
  pub all_addresses :
      (d : D) (k : Bytes) → is_listed k (addresses d) ≡ is_some ((view.working d).nodes k)
  pub replaces_minipool :
      (k a : Bytes) → IsExec view (x.sql.replace_minipool k a) (with_minipool_row k a)
  pub replaces_node :
      (a : Address) (n : ℤ) (d : Bytes)
      → IsExec view (x.sql.replace_node a.bytes n d) (with_node_row a.bytes n d)
  pub replaces_highest_block :
      (n : ℤ) → IsExec view (x.sql.replace_highest_block n) (with_highest_row n)
  pub deletes : (t : Table) → IsAutocommit view (x.sql.delete_from t) (without t)
  pub creates : (t : Table) → IsAutocommit view (x.sql.create_table t) (λ u. u)
  pub prepares : IsAutocommit view x.sql.prepare_statements (λ u. u)
  -- While no fault is pending the table's keys are 20 bytes each, as the cache writes no others: only a
  -- snapshot that it did not write could hold more.
  pub canonical :
      (d : D) → view.healthy d ≡ true → All (λ b. (x.bytes_to_address b).bytes ≡ b) (addresses d)
  -- `BytesToAddress`, which pads and crops, keeps 20 bytes as they are.
  pub address_of_bytes : (a : Address) → x.bytes_to_address a.bytes ≡ a
