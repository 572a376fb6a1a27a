-- ===== src/Cache/Sqlite.antt =====
-- executionlayer/sqlite-cache.go: the cache in an SQLite database in memory. The database handle is a
-- parameter, an operation to each statement of the source, and so is `BytesToAddress`.
-- Prepared statements run as their text. A query's rows are those that `Next` reaches, which is fewer than
-- there are after an error that only `rows.Err` would tell; a row is none where `Scan` fails on it. The
-- gauge of the height is not kept.
pub mod Sql
pub mod Transactions
pub mod Keys
pub mod Files
pub mod Laws
use rescue_proxy.Prelude.{
  ℕ, Bytes, Bool, true, false, Option, none, some, List, [], ◌∷◌, String, if◌then◌else◌,
}
use rescue_proxy.Prelude.Int.{ℤ, pos, leb_ℤ, ltb_ℤ}
use rescue_proxy.Prelude.Exec.{Exec, Result, ok, err, pure, raise, ◌>>=◌, ◌>>◌}
use rescue_proxy.Cache.{
  address_eq, Address, Pubkey, NodeInfo, CacheError, not_found, failed, ForEachNodeClosure,
}

abbrev pub Rows : Type 0 → Type 0
Rows A = Option (List (Option A))

pub data Table : Type 0 where
  nodes minipools highest_block : Table

-- `*sql.DB`, with the transaction that is open in it: whether each call succeeds, and the handle after it.
pub record Database (D : Type 0) : Type 0 where
  pub begin_tx : D → Bool × D
  pub commit : D → Bool × D
  pub rollback : D → D
  -- SELECT node_address FROM minipools WHERE pubkey = ?
  pub select_minipool : Bytes → D → Rows Bytes × D
  -- SELECT smoothing_pool_status, fee_distributor FROM nodes WHERE address = ?
  pub select_node : Bytes → D → Rows (ℤ × Bytes) × D
  -- SELECT value FROM highest_block WHERE id = 0
  pub select_highest_block : D → Rows ℤ × D
  -- SELECT address FROM nodes
  pub select_addresses : D → Rows Bytes × D
  -- INSERT OR REPLACE INTO minipools(pubkey, node_address), nodes(...), highest_block(id, value)
  pub replace_minipool : Bytes → Bytes → D → Bool × D
  pub replace_node : Bytes → ℤ → Bytes → D → Bool × D
  pub replace_highest_block : ℤ → D → Bool × D
  -- outside of a transaction: DELETE FROM, CREATE TABLE IF NOT EXISTS, and `Prepare` of all statements
  pub delete_from : Table → D → Bool × D
  pub create_table : Table → D → Bool × D
  pub prepare_statements : D → Bool × D

pub record SqliteCache (D F : Type 0) : Type 0 where
  pub path : Bytes
  pub db : D
  -- the file system that the snapshot is on
  pub disk : F
  pub highest_block : ℤ
  pub m : List String

pub record Library (D : Type 0) : Type 0 where
  pub sql : Database D
  pub bytes_to_address : Bytes → Address

abbrev pub or_failed : {A : Type 0} → Option A → Result CacheError A
or_failed none = err failed
or_failed (some a) = ok a

abbrev pub in_sp : NodeInfo → ℤ
in_sp node = if node.in_smoothing_pool then pos 1 else pos 0

module _ {D : Type 0} (x : Library D) where
  abbrev pub node_info : ℤ × Bytes → NodeInfo
  node_info (db_sp_status, db_fee_distributor) = record {
    in_smoothing_pool = ltb_ℤ (pos 0) db_sp_status;
    fee_distributor = x.bytes_to_address db_fee_distributor;
  }

  -- The loop over the rows, with what the closure has captured; it stops where the closure returns
  -- false, and fails on a row that cannot be scanned.
  unfoldable pub walk :
      ForEachNodeClosure
      → List (Option Bytes)
      → List Bytes
      → Result CacheError (Unit {0}) × List Bytes
  walk closure [] captured = (ok tt, captured)
  walk closure (none ∷ more) captured = (err failed, captured)
  walk closure (some address ∷ more) captured =
      let (go_on, captured') = closure (x.bytes_to_address address) captured in
      let later = walk closure more captured' in if go_on then later else (ok tt, captured')

abbrev pub M : Type 0 → Type 0 → Type 0 → Type 0
M D F A = Exec (SqliteCache D F) CacheError A

module _ {D F : Type 0} where
  -- A call of the database, whose error ends the method.
  abbrev pub on_db : (D → Bool × D) → M D F (Unit {0})
  on_db op s = (if (op s.db).0 then ok tt else err failed, record s { db = (op s.db).1 })

  abbrev pub query : {A : Type 0} → (D → Rows A × D) → M D F (List (Option A))
  query q s = (or_failed (q s.db).0, record s { db = (q s.db).1 })

  -- rows.Scan
  abbrev pub scan : {A : Type 0} → Option A → M D F A
  scan row s = (or_failed row, s)

  -- defer rollback(tx)
  abbrev pub deferring_rollback : {A : Type 0} → Database D → M D F A → M D F A
  deferring_rollback sql body s =
      ((body s).0, record (body s).1 { db = sql.rollback (body s).1.db })

  abbrev pub transaction : {A : Type 0} → Database D → M D F A → M D F A
  transaction sql body = on_db sql.begin_tx >> deferring_rollback sql body

  -- if rows.Next() { return ... "more than one row" }
  abbrev pub no_more : {A : Type 0} → List (Option A) → M D F (Unit {0})
  no_more [] = pure tt
  no_more (row ∷ more) = raise failed

  -- What both point queries do with their rows.
  abbrev pub point : {A : Type 0} → Database D → List (Option A) → M D F A
  point sql [] = on_db sql.commit >> raise not_found
  point sql (row ∷ more) = do a ← scan row; no_more more; on_db sql.commit; pure a

  module _ (x : Library D) where
    unfoldable pub get_minipool_node : Pubkey → M D F Address
    get_minipool_node pubkey = transaction x.sql (do
      rows ← query (x.sql.select_minipool pubkey)
      addr ← point x.sql rows
      pure (x.bytes_to_address addr))

    unfoldable pub add_minipool_node : Pubkey → Address → M D F (Unit {0})
    add_minipool_node pubkey node_addr =
        transaction x.sql
          (do on_db (x.sql.replace_minipool pubkey node_addr.bytes); on_db x.sql.commit)

    unfoldable pub get_node_info : Address → M D F NodeInfo
    get_node_info node_addr = transaction x.sql (do
      rows ← query (x.sql.select_node node_addr.bytes)
      row ← point x.sql rows
      pure (node_info x row))

    unfoldable pub add_node_info : Address → NodeInfo → M D F (Unit {0})
    add_node_info node_addr node = transaction x.sql (do
      on_db (x.sql.replace_node node_addr.bytes (in_sp node) node.fee_distributor.bytes)
      on_db x.sql.commit)

    -- The method's state, and what the closure has captured.
    abbrev pub on_cache : {A : Type 0} → M D F A → Exec (SqliteCache D F × List Bytes) CacheError A
    on_cache op s = ((op s.0).0, ((op s.0).1, s.1))

    abbrev pub walk_rows :
        ForEachNodeClosure
        → List (Option Bytes)
        → Exec (SqliteCache D F × List Bytes) CacheError (Unit {0})
    walk_rows closure rows s = ((walk x closure rows s.1).0, (s.0, (walk x closure rows s.1).1))

    abbrev pub each_node :
        ForEachNodeClosure → Exec (SqliteCache D F × List Bytes) CacheError (Unit {0})
    each_node closure = do
      rows ← on_cache (query x.sql.select_addresses)
      walk_rows closure rows
      on_cache (on_db x.sql.commit)

    -- The deferred rollback, around the loop.
    abbrev pub each_node_and_rollback :
        ForEachNodeClosure → Exec (SqliteCache D F × List Bytes) CacheError (Unit {0})
    each_node_and_rollback closure s =
        let (r, (s', captured)) = each_node closure s in
        (r, (record s' { db = x.sql.rollback s'.db }, captured))

    unfoldable pub for_each_node :
        ForEachNodeClosure
        → List Bytes
        → SqliteCache D F
        → (Result CacheError (Unit {0}) × List Bytes) × SqliteCache D F
    unfolding walk
    for_each_node closure captured s =
        let (r, (s', captured')) =
          (on_cache (on_db x.sql.begin_tx) >> each_node_and_rollback closure) (s, captured) in
        ((r, captured'), s')

    -- Three statements, each committed by itself.
    unfoldable pub reset : M D F (Unit {0})
    reset = do
      on_db (x.sql.delete_from nodes)
      on_db (x.sql.delete_from minipools)
      on_db (x.sql.delete_from highest_block)
      λ s. (ok tt, record s { m = "reset" ∷ s.m })

  unfoldable pub set_highest_block : ℤ → SqliteCache D F → SqliteCache D F
  set_highest_block block s =
      if leb_ℤ block s.highest_block then s else record s { highest_block = block }

  unfoldable pub get_highest_block : SqliteCache D F → ℤ
  get_highest_block s = s.highest_block
