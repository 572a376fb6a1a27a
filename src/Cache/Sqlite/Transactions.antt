-- ===== src/Cache/Sqlite/Transactions.antt =====
-- The methods of the SQLite cache, each as one transaction over its tables.
use rescue_proxy.Prelude.{
  Bytes, Bool, true, Option, none, some, List, [], ◌∷◌, ◌≡◌, ◌⊎◌, refl, arith, map, nat_eq, list_eq,
  Bool-cases, inl, inr, ap, sym, ◌∙◌,
}
use rescue_proxy.Prelude.Int.{ℤ}
use rescue_proxy.Prelude.Exec.{Result, ok, err, pure, ◌>>=◌, ◌>>◌}
use rescue_proxy.Cache.{address_eq, Address, NodeInfo, CacheError, not_found, failed, Contents}
use rescue_proxy.Cache.Sqlite.{
  Rows, SqliteCache, Library, M, on_db, query, point, transaction, node_info,
}
use rescue_proxy.Cache.Sqlite.Sql.{Tables, row_of, Scans, IsQuery, IsExec, SqlLaws}

module _ {D : Type 0} (x : Library D) where
  abbrev pub address_in : Option Bytes → Option Address
  address_in none = none
  address_in (some b) = some (x.bytes_to_address b)

  abbrev pub info_in : Option (ℤ × Bytes) → Option NodeInfo
  info_in none = none
  info_in (some row) = some (node_info x row)

-- What tables and a height hold, as a client of the cache sees it.
abbrev pub contents_of : {D : Type 0} → Library D → Tables → ℤ → Contents
contents_of x t height = record {
  minipools = λ p. address_in x (t.minipools p);
  nodes = λ a. info_in x (t.nodes a.bytes);
  highest = height;
}

abbrev pub answered : {A X : Type 0} → (A → X) → Option A → Result CacheError X
answered f none = err not_found
answered f (some a) = ok (f a)

module _ {D F : Type 0} (x : Library D) (l : SqlLaws x) where
  abbrev pub tables : SqliteCache D F → Tables
  tables s = l.view.committed s.db

  abbrev pub contents : SqliteCache D F → Contents
  contents s = contents_of x (tables s) s.highest_block

  abbrev pub healthy : SqliteCache D F → Bool
  healthy s = l.view.healthy s.db

  -- A result that is right or a failure, over a state with the same tables and height;
  -- right if `was` holds, which says that the cache was healthy before.
  pub record Found {X : Type 0} (was : Bool) (right : Result CacheError X) (s : SqliteCache D F)
      (after : Result CacheError X × SqliteCache D F) : Type 0 where
    pub sound : (after.0 ≡ right) ⊎ (after.0 ≡ err failed)
    pub exact : was ≡ true → (after.0 ≡ right) × (healthy after.1 ≡ true)
    pub kept : tables after.1 ≡ tables s
    pub height : after.1.highest_block ≡ s.highest_block

  abbrev point_to : {A X : Type 0} → (A → X) → List (Option A) → M D F X
  point_to f rows = point x.sql rows >>= λ a. pure (f a)

  -- The rows of a key, once they are read.
  point_to-Found :
      {A X : Type 0} (f : A → X) (o : Option A) (rows : List (Option A)) (s : SqliteCache D F)
      (was : Bool)
      → Scans rows (row_of o)
      → (was ≡ true → (rows ≡ map some (row_of o)) × (healthy s ≡ true))
      → l.view.working s.db ≡ tables s
      → Found was (answered f o) s (point_to f rows s)
  point_to-Found f none [] s was scans all clean =
      let c = l.commits in
      let d = s.db in
      elim (Bool-cases (x.sql.commit d).0) [
        | inl good ↦ record {
          sound = inl (rw good refl);
          exact = λ h. (rw good refl, rw good (c.reliable.stays_healthy d (all h).1));
          kept = rw good (c.committed d good ∙ clean);
          height = rw good refl;
        }
        | inr bad ↦ record {
          sound = inr (rw bad refl);
          exact = λ h. absurd (ground (arith, c.reliable.exact d (all h).1));
          kept = rw bad (c.kept d bad);
          height = rw bad refl;
        }
      ]
  point_to-Found f none (r ∷ rs) s was scans all clean = elim scans [ ]
  point_to-Found f (some a) [] s was scans all clean = elim scans [ ]
  point_to-Found f (some a) (r ∷ q ∷ rs) s was scans all clean = absurd scans.1
  point_to-Found f (some a) (none ∷ []) s was scans all clean = record {
    sound = inr refl;
    exact = λ h. absurd (ground (arith, all h));
    kept = refl;
    height = refl;
  }
  point_to-Found f (some a) (some b ∷ []) s was scans all clean =
      let c = l.commits in
      let d = s.db in
      let same : b ≡ a = elim scans.0 [ inl e ↦ cc | inr e ↦ cc ] in
      elim (Bool-cases (x.sql.commit d).0) [
        | inl good ↦ record {
          sound = inl (rw (good, same) refl);
          exact = λ h. (rw (good, same) refl, rw good (c.reliable.stays_healthy d (all h).1));
          kept = rw good (c.committed d good ∙ clean);
          height = rw good refl;
        }
        | inr bad ↦ record {
          sound = inr (rw bad refl);
          exact = λ h. absurd (ground (arith, c.reliable.exact d (all h).1));
          kept = rw bad (c.kept d bad);
          height = rw bad refl;
        }
      ]

  abbrev pub look_up : {A X : Type 0} → (D → Rows A × D) → (A → X) → M D F X
  look_up q f = transaction x.sql (do rows ← query q; a ← point x.sql rows; pure (f a))

  pub look_up-Found :
      {A X : Type 0} (q : D → Rows A × D) (f : A → X) (at_key : Tables → Option A)
      → IsQuery l.view q (λ d. row_of (at_key (l.view.working d)))
      → (s : SqliteCache D F) → Found (healthy s) (answered f (at_key (tables s))) s (look_up q f s)
  look_up-Found q f at_key law s =
      let d = s.db in
      let d' = (x.sql.begin_tx d).1 in
      let b = l.begins in
      elim (Bool-cases (x.sql.begin_tx d).0) [
        | inr bad ↦ record {
          sound = inr (rw bad refl);
          exact = λ h. absurd (ground (arith, b.reliable.exact d));
          kept = rw bad (b.kept d);
          height = rw bad refl;
        }
        | inl good ↦ elim (law.sound d') [
          | inl none_read ↦ record {
            sound = inr (rw (good, none_read) refl);
            exact = λ h. absurd (ground (arith, law.exact d' (b.reliable.stays_healthy d h)));
            kept = rw (good, none_read) (l.rolls_back (q d').1 ∙ (law.kept d' ∙ b.kept d));
            height = rw (good, none_read) refl;
          }
          | inr (rows, read, scans) ↦
              let clean : l.view.working d' ≡ tables s = b.sees d good in
              let s' = record s { db = (q d').1 } in
              let found =
                point_to-Found f (at_key (tables s)) rows s' (healthy s) (rw clean at scans)
                  (λ h. (
                    ground (arith, law.exact d' (b.reliable.stays_healthy d h), clean),
                    law.stays_healthy d' (b.reliable.stays_healthy d h),
                  ))
                  (law.working_kept d' ∙ (clean ∙ sym (law.kept d' ∙ b.kept d))) in
              rw (good, read)
                (record {
                  sound = found.sound;
                  exact = λ h. (
                    (found.exact h).0,
                    l.rolls_back_healthy (point_to f rows s').1.db (found.exact h).1,
                  );
                  kept =
                      l.rolls_back (point_to f rows s').1.db
                      ∙ (found.kept ∙ (law.kept d' ∙ b.kept d));
                  height = found.height;
                })
        ]
      ]

  -- A write that is made or fails as a whole.
  pub record Wrote (change : Tables → Tables) (s : SqliteCache D F)
      (after : Result CacheError (Unit {0}) × SqliteCache D F) : Type 0 where
    pub atomic :
        ((after.0 ≡ ok tt) × (tables after.1 ≡ change (tables s)))
        ⊎ ((after.0 ≡ err failed) × (tables after.1 ≡ tables s))
    pub exact : healthy s ≡ true → (after.0 ≡ ok tt) × (healthy after.1 ≡ true)
    pub height : after.1.highest_block ≡ s.highest_block

  abbrev pub put_in : (D → Bool × D) → M D F (Unit {0})
  put_in op = transaction x.sql (on_db op >> on_db x.sql.commit)

  pub put_in-Wrote :
      (op : D → Bool × D) (change : Tables → Tables)
      → IsExec l.view op change
      → (s : SqliteCache D F) → Wrote change s (put_in op s)
  put_in-Wrote op change law s =
      let d = s.db in
      let d1 = (x.sql.begin_tx d).1 in
      let d2 = (op d1).1 in
      let d3 = (x.sql.commit d2).1 in
      let b = l.begins in
      let c = l.commits in
      let ready = λ (h : l.view.healthy d ≡ true). b.reliable.stays_healthy d h in
      let written = λ (h : l.view.healthy d ≡ true). law.reliable.stays_healthy d1 (ready h) in
      let unchanged = law.kept d1 ∙ b.kept d in
      elim (Bool-cases (x.sql.begin_tx d).0) [
        | inr bad ↦ rw bad (record {
          atomic = inr (refl, b.kept d);
          exact = λ h. absurd (ground (arith, b.reliable.exact d));
          height = refl;
        })
        | inl begun ↦ elim (Bool-cases (op d1).0) [
          | inr bad ↦
              rw (begun, bad)
                (record {
                  atomic = inr (refl, l.rolls_back d2 ∙ unchanged);
                  exact = λ h. absurd (ground (arith, law.reliable.exact d1 (ready h)));
                  height = refl;
                })
          | inl done ↦ elim (Bool-cases (x.sql.commit d2).0) [
            | inr bad ↦
                rw (begun, done, bad)
                  (record {
                    atomic = inr (refl, l.rolls_back d3 ∙ (c.kept d2 bad ∙ unchanged));
                    exact = λ h. absurd (ground (arith, c.reliable.exact d2 (written h)));
                    height = refl;
                  })
            | inl good ↦
                rw (begun, done, good)
                  (record {
                    atomic = inl (
                      refl,
                      l.rolls_back d3
                          ∙ (c.committed d2 good
                              ∙ (law.writes d1 done ∙ ap change (b.sees d begun))),
                    );
                    exact = λ h.
                        (refl, l.rolls_back_healthy d3 (c.reliable.stays_healthy d2 (written h)));
                    height = refl;
                  })
          ]
        ]
      ]
