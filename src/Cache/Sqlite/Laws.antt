-- ===== src/Cache/Sqlite/Laws.antt =====
-- The SQLite cache keeps the contract of a cache.
use rescue_proxy.Prelude.{
  Bytes, Bool, true, Option, none, some, ◌≡◌, refl, arith, map, nat_eq, list_eq, Bool-cases, inl,
  inr, ap, ◌∙◌,
}
use rescue_proxy.Prelude.Int.{ℤ, max_ℤ, leb_ℤ}
use rescue_proxy.Prelude.Exec.{Result, ok}
use rescue_proxy.Cache.{
  address_eq, Address, Pubkey, NodeInfo, CacheError, Contents, or_not_found, with_minipool,
  with_node, with_highest, Reads, Writes, IsCleared, is_some, Visits, CacheLaws,
}
use rescue_proxy.Cache.Sqlite.{
  Rows, nodes, minipools, highest_block, SqliteCache, Library, node_info, in_sp, get_minipool_node,
  add_minipool_node, get_node_info, add_node_info, for_each_node, reset, set_highest_block,
  get_highest_block,
}
use rescue_proxy.Cache.Sqlite.Sql.{
  Tables, with_minipool_row, with_node_row, row_of, without, IsQuery, IsExec, SqlLaws,
}
use rescue_proxy.Cache.Sqlite.Transactions.{
  address_in, info_in, contents_of, answered, tables, contents, healthy, look_up, look_up-Found,
  put_in, put_in-Wrote,
}
use rescue_proxy.Cache.Sqlite.Keys.{minipool_row, node_row, walk-visit, is_listed-map}
use rescue_proxy.Cache.Sqlite.Files.{Disk, sqlite_cache}

is_some-info_in :
    {D : Type 0} (x : Library D) (o : Option (ℤ × Bytes)) → is_some o ≡ is_some (info_in x o)
is_some-info_in x none = refl
is_some-info_in x (some row) = refl

module _ {D F : Type 0} (x : Library D) (l : SqlLaws x) where
  same_contents :
      (s s' : SqliteCache D F)
      → tables x l s' ≡ tables x l s
      → s'.highest_block ≡ s.highest_block
      → contents x l s' ≡ contents x l s
  same_contents s s' t h i = contents_of x (t i) (h i)

  -- A point query as a read.
  reads :
      {A X : Type 0} (q : D → Rows A × D) (f : A → X) (at_key : Tables → Option A)
      (answer : Contents → Result CacheError X)
      → IsQuery l.view q (λ d. row_of (at_key (l.view.working d)))
      → ((s : SqliteCache D F) → answered f (at_key (tables x l s)) ≡ answer (contents x l s))
      → Reads (contents {F = F} x l) (healthy {F = F} x l) (look_up x l q f) answer
  reads q f at_key answer law right = record {
    kept = λ s.
        let found = look_up-Found x l q f at_key law s in
        same_contents s (look_up x l q f s).1 found.kept found.height;
    stays_healthy = λ s h. ((look_up-Found x l q f at_key law s).exact h).1;
    exact = λ s h. ((look_up-Found x l q f at_key law s).exact h).0 ∙ right s;
    sound = λ s. elim ((look_up-Found x l q f at_key law s).sound) [
      | inl e ↦ inl (e ∙ right s)
      | inr e ↦ inr e
    ];
  }

  pub gets_minipool :
      (p : Pubkey)
      → Reads
          (contents {F = F} x l)
          (healthy {F = F} x l)
          (get_minipool_node x p)
          (λ v. or_not_found (v.minipools p))
  unfolding get_minipool_node
  gets_minipool p =
      reads (x.sql.select_minipool p) x.bytes_to_address (λ t. t.minipools p)
        (λ v. or_not_found (v.minipools p)) (l.selects_minipool p) (λ s. ground arith)

  pub gets_node :
      (a : Address)
      → Reads
          (contents {F = F} x l)
          (healthy {F = F} x l)
          (get_node_info x a)
          (λ v. or_not_found (v.nodes a))
  unfolding get_node_info
  gets_node a =
      reads (x.sql.select_node a.bytes) (node_info x) (λ t. t.nodes a.bytes)
        (λ v. or_not_found (v.nodes a)) (l.selects_node a.bytes) (λ s. ground arith)

  -- A write as a change of the contents.
  writes :
      (op : D → Bool × D) (change : Tables → Tables) (on_contents : Contents → Contents)
      → IsExec l.view op change
      → ((t : Tables) (height : ℤ)
          → contents_of x (change t) height ≡ on_contents (contents_of x t height))
      → Writes (contents {F = F} x l) (healthy {F = F} x l) (put_in x l op) on_contents
  writes op change on_contents law right = record {
    stays_healthy = λ s h. ((put_in-Wrote x l op change law s).exact h).1;
    exact = λ s h. ((put_in-Wrote x l op change law s).exact h).0;
    atomic = λ s.
        let wrote = put_in-Wrote x l op change law s in
        elim wrote.atomic [
          | inl (done, t) ↦ inl (
            done,
            (λ i. contents_of x (t i) (wrote.height i)) ∙ right (tables x l s) s.highest_block,
          )
          | inr (bad, t) ↦ inr (bad, same_contents s (put_in x l op s).1 t wrote.height)
        ];
  }

  pub adds_minipool :
      (p : Pubkey) (a : Address)
      → Writes
          (contents {F = F} x l)
          (healthy {F = F} x l)
          (add_minipool_node x p a)
          (with_minipool p a)
  unfolding add_minipool_node
  adds_minipool p a =
      writes (x.sql.replace_minipool p a.bytes) (with_minipool_row p a.bytes) (with_minipool p a)
        (l.replaces_minipool p a.bytes)
        (λ t height i. record {
          minipools = λ q. minipool_row x l t p q a i;
          nodes = λ b. info_in x (t.nodes b.bytes);
          highest = height;
        })

  pub adds_node :
      (a : Address) (n : NodeInfo)
      → Writes (contents {F = F} x l) (healthy {F = F} x l) (add_node_info x a n) (with_node a n)
  unfolding add_node_info
  adds_node a n =
      writes (x.sql.replace_node a.bytes (in_sp n) n.fee_distributor.bytes)
        (with_node_row a.bytes (in_sp n) n.fee_distributor.bytes) (with_node a n)
        (l.replaces_node a (in_sp n) n.fee_distributor.bytes)
        (λ t height i. record {
          minipools = λ q. address_in x (t.minipools q);
          nodes = λ b. node_row x l t a b n i;
          highest = height;
        })

  pub raises :
      (b : ℤ) (s : SqliteCache D F)
      → contents x l (set_highest_block b s) ≡ with_highest b (contents x l s)
  unfolding set_highest_block max_ℤ
  raises b s = elim (Bool-cases (leb_ℤ b s.highest_block)) [
    | inl lower ↦ rw lower refl
    | inr higher ↦ rw higher refl
  ]

  pub resets-IsCleared :
      (s : SqliteCache D F)
      → healthy x l s ≡ true
      → ((reset x s).0 ≡ ok tt)
        × (healthy x l (reset x s).1 ≡ true)
        × IsCleared (contents x l (reset x s).1)
  unfolding reset
  resets-IsCleared s h =
      let d = s.db in
      let d1 = (x.sql.delete_from nodes d).1 in
      let d2 = (x.sql.delete_from minipools d1).1 in
      let d3 = (x.sql.delete_from highest_block d2).1 in
      let n = l.deletes nodes in
      let m = l.deletes minipools in
      let b = l.deletes highest_block in
      let h1 = n.reliable.stays_healthy d h in
      let h2 = m.reliable.stays_healthy d1 h1 in
      let e1 = n.reliable.exact d h in
      let e2 = m.reliable.exact d1 h1 in
      let e3 = b.reliable.exact d2 h2 in
      let after =
        b.committed d2 e3
        ∙ ap (without highest_block)
            (m.committed d1 e2 ∙ ap (without minipools) (n.committed d e1)) in
      rw (e1, e2, e3)
        (
          refl,
          b.reliable.stays_healthy d2 h2,
          record {
            minipools = λ p. ap (λ t. address_in x (t.minipools p)) after;
            nodes = λ a. ap (λ t. info_in x (t.nodes a.bytes)) after;
          },
        )

  module _ (io : Disk D F) where
    pub sqlite-Visits :
        (s : SqliteCache D F)
        → healthy x l s ≡ true
        → Visits (sqlite_cache x io) (contents x l) (healthy x l) s
    unfolding sqlite_cache for_each_node
    sqlite-Visits s h =
        let d = s.db in
        let d1 = (x.sql.begin_tx d).1 in
        let d2 = (x.sql.select_addresses d1).1 in
        let d3 = (x.sql.commit d2).1 in
        let b = l.begins in
        let q = l.selects_addresses in
        let c = l.commits in
        let h1 = b.reliable.stays_healthy d h in
        let h2 = q.stays_healthy d1 h1 in
        let e1 = b.reliable.exact d h in
        let e2 = q.exact d1 h1 in
        let e3 = c.reliable.exact d2 h2 in
        let here = b.sees d e1 in
        let after = l.rolls_back d3 ∙ (c.committed d2 e3 ∙ (q.working_kept d1 ∙ here)) in
        record {
          visited = map x.bytes_to_address (l.addresses d1);
          all = λ a.
              is_listed-map x l a (l.addresses d1) (l.canonical d1 h1)
              ∙ (l.all_addresses d1 a.bytes
                  ∙ (ap (λ (t : Tables). is_some (t.nodes a.bytes)) here
                      ∙ is_some-info_in x ((tables x l s).nodes a.bytes)));
          walks = λ closure captured.
              rw (e1, e2, walk-visit x l closure (l.addresses d1) captured, e3) refl;
          kept = λ closure captured.
              rw (e1, e2, walk-visit x l closure (l.addresses d1) captured)
                (λ i. contents_of x (after i) s.highest_block);
        }

    pub raises_healthy :
        (b : ℤ) (s : SqliteCache D F) → healthy x l (set_highest_block b s) ≡ healthy x l s
    unfolding set_highest_block
    raises_healthy b s = ground arith

    unfoldable pub sqlite_laws : CacheLaws (sqlite_cache x io)
    unfolding sqlite_cache get_highest_block
    sqlite_laws = record {
      contents = contents x l;
      healthy = healthy x l;
      gets_minipool = gets_minipool;
      gets_node = gets_node;
      adds_minipool = adds_minipool;
      adds_node = adds_node;
      raises = raises;
      raises_healthy = raises_healthy;
      height = λ s. refl;
      resets = resets-IsCleared;
      visits = sqlite-Visits;
    }

    -- Over an SQLite that keeps its promises, the SQLite cache keeps the contract of a cache, whose
    -- contents are the committed tables and the height in memory: a read answers from them and keeps
    -- them, or fails; an insertion shows exactly there, or fails and changes nothing; while no fault of
    -- the database is pending, nothing fails, a reset clears the tables, and a walk visits each node.
    pub sqlite_cache-CacheLaws :
        (laws : CacheLaws (sqlite_cache x io)) × ((s : SqliteCache D F)
          → (laws.contents s ≡ contents_of x (l.view.committed s.db) s.highest_block)
            × (laws.healthy s ≡ l.view.healthy s.db))
    unfolding sqlite_laws
    sqlite_cache-CacheLaws = (sqlite_laws, λ s. (refl, refl))
