-- ===== src/Execution/Recipient/Truncated.antt =====
-- `ValidatorFeeRecipient` over the SQLite cache when the rows of its query end at an error: `rows.Next` returns
-- false there as at the end, and `rows.Err` is never asked.
use rescue_proxy.Prelude.{
  true, false, Option, none, some, [], ◌≡◌, ◌≢◌, refl, arith, inl, inr, Bool-cases, ◌==◌, nat_eq,
  list_eq,
}
use rescue_proxy.Prelude.Exec.{ok}
use rescue_proxy.Cache.{address_eq, address_same_iff, Address, Pubkey}
use rescue_proxy.Cache.Sqlite.{SqliteCache, Library, get_minipool_node}
use rescue_proxy.Cache.Sqlite.Sql.{SqlLaws}
use rescue_proxy.Cache.Sqlite.Transactions.{contents}
use rescue_proxy.Cache.Sqlite.Laws.{sqlite_laws}
use rescue_proxy.Cache.Sqlite.Files.{Disk, sqlite_cache}
use rescue_proxy.Execution.{El, Contracts}
use rescue_proxy.Execution.Recipient.{validator_fee_recipient, owned_by_another, recipient_of}
use rescue_proxy.Execution.Recipient.Laws.{validator_fee_recipient-Answers}

-- The same database, but for the rows of the minipools' query, which end before the first one.
abbrev pub cut_short : {D : Type 0} → Library D → Library D
cut_short x = record x {
  sql = record x.sql { select_minipool = λ k d. (some [], (x.sql.select_minipool k d).1) };
}

module _ {D F : Type 0} (x : Library D) (io : Disk D F) (k : Contracts) where
  none_read :
      (pubkey : Pubkey) (query : Option Address) (el : El (SqliteCache D F))
      → (x.sql.begin_tx el.cache.db).0 ≡ true
      → (x.sql.commit (x.sql.select_minipool pubkey (x.sql.begin_tx el.cache.db).1).1).0 ≡ true
      → (validator_fee_recipient (sqlite_cache (cut_short x) io) k pubkey query el).0
        ≡ ok (none, false)
  unfolding validator_fee_recipient sqlite_cache get_minipool_node
  none_read pubkey query el begun committed = rw (begun, committed) refl

  module _ (l : SqlLaws x) where
    -- For another node's minipool `ValidatorFeeRecipient` over a healthy SQLite cache returns no
    -- address and true, which says that it is another's. Over the same cache, but that the rows of
    -- the query end before the first one, it returns no address and false, which says that it is
    -- nobody's, and no error.
    pub validator_fee_recipient_truncated :
        (pubkey : Pubkey) (node owner : Address) (el : El (SqliteCache D F))
        → l.view.healthy el.cache.db ≡ true
        → (contents x l el.cache).minipools pubkey ≡ some owner
        → owner ≢ node
        → ((validator_fee_recipient (sqlite_cache x io) k pubkey (some node) el).0
            ≡ ok (none, true))
          × ((validator_fee_recipient (sqlite_cache (cut_short x) io) k pubkey (some node) el).0
              ≡ ok (none, false))
    unfolding sqlite_laws owned_by_another
    validator_fee_recipient_truncated pubkey node owner el h owned other =
        let d = el.cache.db in
        let begun = l.begins in
        let d1 = (x.sql.begin_tx d).1 in
        let q = l.selects_minipool pubkey in
        let h1 = begun.reliable.stays_healthy d h in
        let answered =
          validator_fee_recipient-Answers (sqlite_laws x l io) k pubkey (some node) el h in
        let another : recipient_of k (contents x l el.cache) pubkey (some node) ≡ (none, true) =
          elim (Bool-cases (node.bytes == owner.bytes)) [
            | inl same ↦ absurd (ground (arith, other, (address_same_iff node owner).0 same))
            | inr differs ↦ rw (owned, differs) refl
          ] in
        (
          rw (answered.result, another) refl,
          none_read pubkey (some node) el (begun.reliable.exact d h)
              (l.commits.reliable.exact _ (q.stays_healthy d1 h1)),
        )
