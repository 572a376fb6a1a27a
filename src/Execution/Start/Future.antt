-- ===== src/Execution/Start/Future.antt =====
-- `Init` over the SQLite cache when its snapshot is ahead of the execution client: `reset` empties the tables
-- but keeps the height in memory, below which nothing is backfilled.
use rescue_proxy.Prelude.{ℕ, true, some, ◌≡◌, refl, arith, ap, ◌∙◌, Bool-cases, inl, inr}
use rescue_proxy.Prelude.Int.{ℤ, pos, ◌+ℤ◌, ◌≤ℤ◌, ltb_ℤ, max_ℤ, +ℤ_parts}
use rescue_proxy.Prelude.Exec.{ok}
use rescue_proxy.Cache.{address_eq, Address, CacheLaws, Contents, IsCleared, with_highest}
use rescue_proxy.Cache.Sqlite.{nodes, minipools, highest_block, SqliteCache, Library, reset}
use rescue_proxy.Cache.Sqlite.Sql.{SqlLaws}
use rescue_proxy.Cache.Sqlite.Transactions.{contents}
use rescue_proxy.Cache.Sqlite.Files.{Disk, sqlite_cache}
use rescue_proxy.Cache.Sqlite.Laws.{sqlite_laws}
use rescue_proxy.Execution.{Contracts}
use rescue_proxy.Execution.Backfill.{Client, nil, backfill_events}
use rescue_proxy.Execution.Backfill.Laws.{backfill_events_unchanged}
use rescue_proxy.Execution.Connection.{Connection}
use rescue_proxy.Execution.Start.{Rocketpool, Feed, contracts_at, is_stale, init}
use rescue_proxy.Execution.Start.Preloaded.{ChainState, IsRead, preloaded}
use rescue_proxy.Execution.Start.Synced.{no_gap, IsReached, init-Started_cold}

reset_height :
    {D F : Type 0} (x : Library D) (s : SqliteCache D F)
    → (reset x s).1.highest_block ≡ s.highest_block
unfolding reset
reset_height x s =
    let d = s.db in
    let d1 = (x.sql.delete_from nodes d).1 in
    let d2 = (x.sql.delete_from minipools d1).1 in
    elim (Bool-cases (x.sql.delete_from nodes d).0) [
      | inr bad ↦ rw bad refl
      | inl one ↦ elim (Bool-cases (x.sql.delete_from minipools d1).0) [
        | inr bad ↦ rw (one, bad) refl
        | inl two ↦ elim (Bool-cases (x.sql.delete_from highest_block d2).0) [
          | inr bad ↦ rw (one, two, bad) refl
          | inl three ↦ rw (one, two, three) refl
        ]
      ]
    ]

below : (stop n : ℤ) → stop ≤ℤ n → ltb_ℤ stop (n +ℤ pos 1) ≡ true
below stop n h = ground (arith, +ℤ_parts n (pos 1))

max_of_lower : (b n : ℤ) → b ≤ℤ n → max_ℤ n b ≡ n
unfolding max_ℤ
max_of_lower b n h = ground arith

module _ {D F : Type 0} (x : Library D) (l : SqlLaws x) (io : Disk D F) (rp : Rocketpool)
    (feed : Feed) (header : ℤ) (manager minipool_manager pool : Address)
    (reached : IsReached rp header manager minipool_manager pool) (logs heads : ℕ)
    (sub : feed.subscribe_logs ≡ some logs) (sub' : feed.subscribe_heads ≡ some heads) where
  abbrev k : Contracts
  k = contracts_at rp manager minipool_manager pool

  abbrev laws : CacheLaws (sqlite_cache x io)
  laws = sqlite_laws x l io

  -- Over the SQLite cache, where the loaded height is stale and neither the block at the start nor
  -- the client's latest block is above it: while the execution client, rocketpool-go and the
  -- database answer, `Init` succeeds; the tables are cleared and then hold the chain's nodes and
  -- minipools, and no events; and the height is still the loaded one, so that backfilling up to any
  -- block that is not above it does nothing.
  pub init-Started_future :
      (t : ChainState) (s : Connection (SqliteCache D F)) (s0 : SqliteCache D F) (stop b : ℤ)
      (later : Client)
      → (sqlite_cache x io).init s.el.cache ≡ (ok tt, s0)
      → l.view.healthy s0.db ≡ true
      → is_stale header s0.highest_block ≡ true
      → header ≤ℤ s0.highest_block
      → feed.client.latest ≡ some stop
      → stop ≤ℤ s0.highest_block
      → later.latest ≡ some b
      → b ≤ℤ s0.highest_block
      → IsRead rp header t
      → let after = init (sqlite_cache x io) rp feed s in
        (after.0 ≡ ok k)
        × (contents x l after.1.el.cache
            ≡ with_highest header (preloaded t t.nodes (contents x l (reset x s0).1)))
        × IsCleared (contents x l (reset x s0).1)
        × ((contents x l after.1.el.cache).highest ≡ s0.highest_block)
        × (backfill_events (sqlite_cache x io) k feed.chain later after.1.el ≡ (ok nil, after.1.el))
  unfolding sqlite_laws sqlite_cache
  init-Started_future t s s0 stop b later loaded h stale lower latest under latest' under' read =
      let cleared = contents x l (reset x s0).1 in
      let v = with_highest header (preloaded t t.nodes cleared) in
      let same : v.highest ≡ s0.highest_block =
        ap (λ n. max_ℤ n header) (reset_height x s0) ∙ max_of_lower header s0.highest_block lower in
      let (started, empty) =
        init-Started_cold laws rp feed header manager minipool_manager pool reached logs heads sub
          sub' t s s0 v loaded h stale read
          (no_gap stop latest (rw same (below stop s0.highest_block under))) in
      let height = ap (λ (u : Contents). u.highest) started.contents ∙ same in
      let el = (init (sqlite_cache x io) rp feed s).1.el in
      (
        started.result,
        started.contents,
        empty,
        height,
        (backfill_events_unchanged laws k feed.chain later el).1 b latest'
            (rw height (below b s0.highest_block under')),
      )
