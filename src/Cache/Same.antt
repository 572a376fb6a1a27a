-- ===== src/Cache/Same.antt =====
-- The two caches under the calls that the execution layer makes while it runs. `reset` and the walk are left
-- out: after a reset the cache in memory has the height 0, and the SQLite cache the one it had.
use rescue_proxy.Prelude.{true, List, [], ◌∷◌, ◌≡◌, refl, arith, ap, ◌∙◌, sym, inl, inr}
use rescue_proxy.Prelude.Int.{ℤ}
use rescue_proxy.Prelude.Exec.{Result, ok}
use rescue_proxy.Cache.{
  address_eq, Address, Pubkey, NodeInfo, CacheError, Cache, CacheLaws, Contents, Writes,
  or_not_found, with_minipool, with_node, with_highest,
}
use rescue_proxy.Cache.Maps.{MapsCache, maps_cache}
use rescue_proxy.Cache.Maps.Laws.{maps_laws}
use rescue_proxy.Cache.Sqlite.{SqliteCache, Library}
use rescue_proxy.Cache.Sqlite.Sql.{SqlLaws}
use rescue_proxy.Cache.Sqlite.Transactions.{contents}
use rescue_proxy.Cache.Sqlite.Files.{Disk, sqlite_cache}
use rescue_proxy.Cache.Sqlite.Laws.{sqlite_laws}

-- What the execution layer does with its cache while it runs.
pub data Op : Type 0 where
  get_minipool : Pubkey → Op
  add_minipool : Pubkey → Address → Op
  get_node : Address → Op
  add_node : Address → NodeInfo → Op
  raise_highest : ℤ → Op
  get_highest : Op

pub data Answer : Type 0 where
  address : Result CacheError Address → Answer
  node : Result CacheError NodeInfo → Answer
  wrote : Result CacheError (Unit {0}) → Answer
  height : ℤ → Answer
  nothing : Answer

unfoldable pub run : {S : Type 0} → Cache S → List Op → S → List Answer × S
run c [] s = ([], s)
run c (get_minipool p ∷ ops) s =
    let (r, s') = c.get_minipool_node p s in let (rs, s'') = run c ops s' in (address r ∷ rs, s'')
run c (add_minipool p a ∷ ops) s =
    let (r, s') = c.add_minipool_node p a s in let (rs, s'') = run c ops s' in (wrote r ∷ rs, s'')
run c (get_node a ∷ ops) s =
    let (r, s') = c.get_node_info a s in let (rs, s'') = run c ops s' in (node r ∷ rs, s'')
run c (add_node a n ∷ ops) s =
    let (r, s') = c.add_node_info a n s in let (rs, s'') = run c ops s' in (wrote r ∷ rs, s'')
run c (raise_highest b ∷ ops) s =
    let (rs, s'') = run c ops (c.set_highest_block b s) in (nothing ∷ rs, s'')
run c (get_highest ∷ ops) s =
    let (rs, s'') = run c ops s in (height (c.get_highest_block s) ∷ rs, s'')

-- The answers that contents give by themselves, and the contents afterwards.
unfoldable pub answers : List Op → Contents → List Answer × Contents
answers [] v = ([], v)
answers (get_minipool p ∷ ops) v =
    let (rs, v') = answers ops v in (address (or_not_found (v.minipools p)) ∷ rs, v')
answers (add_minipool p a ∷ ops) v =
    let (rs, v') = answers ops (with_minipool p a v) in (wrote (ok tt) ∷ rs, v')
answers (get_node a ∷ ops) v =
    let (rs, v') = answers ops v in (node (or_not_found (v.nodes a)) ∷ rs, v')
answers (add_node a n ∷ ops) v =
    let (rs, v') = answers ops (with_node a n v) in (wrote (ok tt) ∷ rs, v')
answers (raise_highest b ∷ ops) v =
    let (rs, v') = answers ops (with_highest b v) in (nothing ∷ rs, v')
answers (get_highest ∷ ops) v = let (rs, v') = answers ops v in (height v.highest ∷ rs, v')

module _ {S : Type 0} {c : Cache S} (l : CacheLaws c) where
  pub record Answered (right : List Answer × Contents) (after : List Answer × S) : Type 0 where
    pub replies : after.0 ≡ right.0
    pub contents : l.contents after.1 ≡ right.1
    pub healthy : l.healthy after.1 ≡ true

  changed :
      (m : S → Result CacheError (Unit {0}) × S) (change : Contents → Contents) (s : S)
      → Writes l.contents l.healthy m change
      → l.healthy s ≡ true
      → l.contents (m s).1 ≡ change (l.contents s)
  changed m change s w h = elim (w.atomic s) [
    | inl (done, same) ↦ same
    | inr (bad, same) ↦ absurd (ground (arith, w.exact s h, bad))
  ]

  step :
      (ops : List Op) (a b : Answer) (v : Contents) (s : S)
      → a ≡ b
      → l.contents s ≡ v
      → Answered (answers ops (l.contents s)) (run c ops s)
      → Answered (b ∷ (answers ops v).0, (answers ops v).1) (a ∷ (run c ops s).0, (run c ops s).1)
  step ops a b v s same here later =
      rw (same, sym here)
        (record {
          replies = ap (λ rs. b ∷ rs) later.replies;
          contents = later.contents;
          healthy = later.healthy;
        })

  -- A lawful cache answers from its contents.
  run-Answered :
      (ops : List Op) (s : S)
      → l.healthy s ≡ true
      → Answered (answers ops (l.contents s)) (run c ops s)
  unfolding run answers
  run-Answered [] s h = record { replies = refl; contents = refl; healthy = h }
  run-Answered (get_minipool p ∷ ops) s h =
      let g = l.gets_minipool p in
      let s' = (c.get_minipool_node p s).1 in
      step ops _ _ _ s' (ap address (g.exact s h)) (g.kept s)
        (run-Answered ops s' (g.stays_healthy s h))
  run-Answered (add_minipool p a ∷ ops) s h =
      let w = l.adds_minipool p a in
      let s' = (c.add_minipool_node p a s).1 in
      step ops _ _ _ s' (ap wrote (w.exact s h)) (changed _ _ s w h)
        (run-Answered ops s' (w.stays_healthy s h))
  run-Answered (get_node a ∷ ops) s h =
      let g = l.gets_node a in
      let s' = (c.get_node_info a s).1 in
      step ops _ _ _ s' (ap node (g.exact s h)) (g.kept s)
        (run-Answered ops s' (g.stays_healthy s h))
  run-Answered (add_node a n ∷ ops) s h =
      let w = l.adds_node a n in
      let s' = (c.add_node_info a n s).1 in
      step ops _ _ _ s' (ap wrote (w.exact s h)) (changed _ _ s w h)
        (run-Answered ops s' (w.stays_healthy s h))
  run-Answered (raise_highest b ∷ ops) s h =
      let s' = c.set_highest_block b s in
      step ops _ _ _ s' refl (l.raises b s) (run-Answered ops s' (l.raises_healthy b s ∙ h))
  run-Answered (get_highest ∷ ops) s h =
      step ops _ _ _ s (ap height (l.height s)) refl (run-Answered ops s h)

module _ {S S' : Type 0} {c : Cache S} {c' : Cache S'} (l : CacheLaws c) (l' : CacheLaws c') where
  -- Two lawful caches that are healthy and hold the same give the same answers to the same calls, in
  -- any order and however many, and hold the same afterwards.
  run-same :
      (ops : List Op) (s : S) (s' : S')
      → l.healthy s ≡ true
      → l'.healthy s' ≡ true
      → l.contents s ≡ l'.contents s'
      → ((run c ops s).0 ≡ (run c' ops s').0)
        × (l.contents (run c ops s).1 ≡ l'.contents (run c' ops s').1)
  run-same ops s s' h h' same =
      let a = run-Answered l ops s h in
      let b = run-Answered l' ops s' h' in
      let right = ap (answers ops) same in
      (
        a.replies ∙ (ap (λ r. r.0) right ∙ sym b.replies),
        a.contents ∙ (ap (λ r. r.1) right ∙ sym b.contents),
      )

module _ {D F : Type 0} (x : Library D) (l : SqlLaws x) (io : Disk D F) where
  -- The cache in memory and the SQLite cache, over an SQLite that keeps its promises and has no fault
  -- pending: where they hold the same, they give the same answers to the same insertions, lookups and
  -- heights, in any order, and hold the same afterwards.
  pub run-maps_sqlite :
      (ops : List Op) (s : MapsCache) (t : SqliteCache D F)
      → l.view.healthy t.db ≡ true
      → maps_laws.contents s ≡ contents x l t
      → ((run maps_cache ops s).0 ≡ (run (sqlite_cache x io) ops t).0)
        × (maps_laws.contents (run maps_cache ops s).1
            ≡ contents x l (run (sqlite_cache x io) ops t).1)
  unfolding sqlite_laws maps_laws
  run-maps_sqlite ops s t h same = run-same maps_laws (sqlite_laws x l io) ops s t refl h same
