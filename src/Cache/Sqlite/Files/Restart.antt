-- ===== src/Cache/Sqlite/Files/Restart.antt =====
-- The snapshot: what a process writes when it stops is what the next one starts with.
use rescue_proxy.Prelude.{true, ℕ, ◌<◌, ◌^◌, some, ◌≡◌, refl, inl, inr, ap, sym, ◌∙◌, subst}
use rescue_proxy.Prelude.Int.{pos, int64_of_big, int64_of_big_small}
use rescue_proxy.Prelude.Exec.{Result, ok}
use rescue_proxy.Cache.{address_eq, CacheError}
use rescue_proxy.Cache.Sqlite.{SqliteCache, Library}
use rescue_proxy.Cache.Sqlite.Sql.{Tables, SqlLaws, with_highest_row}
use rescue_proxy.Cache.Sqlite.Transactions.{contents_of, tables, contents}
use rescue_proxy.Cache.Sqlite.Files.{
  present, Disk, clone_sql_db, snapshot_path, init, delete_snapshot, serialize, deinit,
}
use rescue_proxy.Cache.Sqlite.Files.Snapshot.{DiskLaws, Stat-cases, clone_lem, Works, Did}
use rescue_proxy.Cache.Sqlite.Files.Opened.{init-Loaded}

module _ {D F : Type 0} (x : Library D) (l : SqlLaws x) (io : Disk D F)
    (k : DiskLaws io l.view) where
  delete_snapshot-Did :
      (s : SqliteCache D F)
      → Works x l io k s
      → Did x l io k (tables x l s) s (delete_snapshot x io s)
  unfolding delete_snapshot
  delete_snapshot-Did s w =
      let path = snapshot_path s.path in
      elim (Stat-cases (io.stat path s.disk)) [
        | inl e ↦
            let (done, ready) = k.removes s.path s.disk w.disk in
            rw (delete_snapshot, e, done)
              (record {
                result = refl;
                works = record { db = w.db; disk = ready };
                holds = refl;
                path = refl;
                height = refl;
              })
        | inr (inl e) ↦
            rw (delete_snapshot, e)
              (record { result = refl; works = w; holds = refl; path = refl; height = refl })
        | inr (inr e) ↦ absurd (k.readable s.path s.disk w.disk e)
      ]

  serialize-Saved :
      (s : SqliteCache D F)
      → Works x l io k s
      → Did x l io k (tables x l s) s (serialize x io s)
        × (io.stat (snapshot_path s.path) (serialize x io s).1.disk ≡ present)
        × ((d : D)
            → io.open_file (snapshot_path s.path) (serialize x io s).1.disk ≡ some d
            → l.view.committed d ≡ tables x l s)
  unfolding serialize
  serialize-Saved s w =
      let deleted = delete_snapshot-Did s w in
      let s1 = (delete_snapshot x io s).1 in
      let path = snapshot_path s1.path in
      let (dst, opened, fine) = k.opens_file s1.path s1.disk deleted.works.disk in
      let (cloned, still, same) = clone_lem x l io k dst s1.db fine deleted.works.db in
      let dst' = (clone_sql_db io dst s1.db).1 in
      let (ready, there) = k.closes s1.path dst' s1.disk deleted.works.disk in
      rw (deleted.result, opened, cloned)
        (
          record {
            result = refl;
            works = record { db = deleted.works.db; disk = ready };
            holds = deleted.holds;
            path = deleted.path;
            height = deleted.height;
          },
          subst (λ p. io.stat (snapshot_path p) (io.close_file path dst' s1.disk) ≡ present)
              deleted.path there,
          λ d again.
              k.reopens path dst' d s1.disk (
                subst
                  (λ p. io.open_file (snapshot_path p) (io.close_file path dst' s1.disk) ≡ some d)
                  (sym deleted.path) again)
              ∙ (same ∙ deleted.holds),
        )

  -- After deinit the snapshot is there, and holds the tables with the height's row.
  pub record Saved (t : Tables) (s : SqliteCache D F)
      (after : Result CacheError (Unit {0}) × SqliteCache D F) : Type 0 where
    pub result : after.0 ≡ ok tt
    pub works : Works x l io k after.1
    pub path : after.1.path ≡ s.path
    pub there : io.stat (snapshot_path s.path) after.1.disk ≡ present
    pub holds :
        (d : D) → io.open_file (snapshot_path s.path) after.1.disk ≡ some d → l.view.committed d ≡ t

  deinit-Saved :
      (s : SqliteCache D F)
      → Works x l io k s
      → Saved (with_highest_row (int64_of_big s.highest_block) (tables x l s)) s (deinit x io s)
  unfolding deinit
  deinit-Saved s w =
      let n = int64_of_big s.highest_block in
      let d = s.db in
      let d1 = (x.sql.begin_tx d).1 in
      let d2 = (x.sql.replace_highest_block n d1).1 in
      let d3 = (x.sql.commit d2).1 in
      let b = l.begins in
      let q = l.replaces_highest_block n in
      let c = l.commits in
      let h1 = b.reliable.stays_healthy d w.db in
      let h2 = q.reliable.stays_healthy d1 h1 in
      let e1 = b.reliable.exact d w.db in
      let e2 = q.reliable.exact d1 h1 in
      let e3 = c.reliable.exact d2 h2 in
      let s3 = record s { db = d3 } in
      let now = c.committed d2 e3 ∙ (q.writes d1 e2 ∙ ap (with_highest_row n) (b.sees d e1)) in
      let w3 : Works x l io k s3 = record { db = c.reliable.stays_healthy d2 h2; disk = w.disk } in
      let (did, there, content) = serialize-Saved s3 w3 in
      rw (e1, e2, e3)
        (record {
          result = did.result;
          works = record { db = l.rolls_back_healthy _ did.works.db; disk = did.works.disk };
          path = did.path;
          there = there;
          holds = λ e opened. content e opened ∙ now;
        })

  -- Of two processes, one that stops and one that starts at the same path on the disk it left:
  -- while the database works and the cache's directory is there and can be used, both succeed, and
  -- the second has the tables of the first and, for a height that is an int64 and not negative, its
  -- height; and it works on.
  pub init-deinit_roundtrip :
      (s t : SqliteCache D F) (n : ℕ)
      → Works x l io k s
      → s.highest_block ≡ pos n
      → n < 2 ^ 63
      → t.path ≡ s.path
      → t.disk ≡ (deinit x io s).1.disk
      → ((deinit x io s).0 ≡ ok tt)
        × ((init x io t).0 ≡ ok tt)
        × (contents x l (init x io t).1 ≡ contents x l s)
        × Works x l io k (init x io t).1
  init-deinit_roundtrip s t n w e small same_path same_disk =
      let saved = deinit-Saved s w in
      let kept = with_highest_row (int64_of_big s.highest_block) (tables x l s) in
      let row : kept.highest ≡ some (pos n) =
        ap some (ap int64_of_big e ∙ int64_of_big_small n small) in
      let loaded =
        init-Loaded x l io k t kept n
          (subst (λ p. k.ready p t.disk ≡ true) (saved.path ∙ sym same_path)
            (rw same_disk saved.works.disk))
          (rw (same_path, same_disk) saved.there)
          (λ d again. saved.holds d (
            subst (λ p. io.open_file (snapshot_path p) (deinit x io s).1.disk ≡ some d) same_path
              (subst (λ f. io.open_file (snapshot_path t.path) f ≡ some d) same_disk again)))
          row in
      (
        saved.result,
        loaded.result,
        λ i. contents_of x (loaded.holds i) ((loaded.height ∙ sym e) i),
        loaded.works,
      )
