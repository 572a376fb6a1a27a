-- ===== src/Cache/Sqlite/Files/Opened.antt =====
-- Opening the cache: what init makes of a snapshot that is there.
use rescue_proxy.Prelude.{ℕ, true, some, [], ◌≡◌, refl, arith, map, if◌then◌else◌, ap, sym, ◌∙◌}
use rescue_proxy.Prelude.Int.{ℤ, pos, leb_ℤ}
use rescue_proxy.Prelude.Exec.{Result, ok}
use rescue_proxy.Cache.{address_eq, CacheError}
use rescue_proxy.Cache.Sqlite.{
  nodes, minipools, highest_block, SqliteCache, Library, on_db, set_highest_block,
}
use rescue_proxy.Cache.Sqlite.Sql.{Tables, SqlLaws, row_of}
use rescue_proxy.Cache.Sqlite.Transactions.{tables}
use rescue_proxy.Cache.Sqlite.Files.{
  present, Disk, snapshot_path, make_path, load_snapshot, create_tables, read_height, init,
}
use rescue_proxy.Cache.Sqlite.Files.Snapshot.{DiskLaws, clone_lem, Works, Did}

highest_of_zero : (n : ℕ) (z : ℤ) → z ≡ pos 0 → (if leb_ℤ (pos n) z then z else pos n) ≡ pos n
highest_of_zero n z e = rw e (ground arith)

module _ {D F : Type 0} (x : Library D) (l : SqlLaws x) (io : Disk D F)
    (k : DiskLaws io l.view) where
  create_tables-Did :
      (s : SqliteCache D F)
      → Works x l io k s
      → Did x l io k (tables x l s) s (create_tables x io s)
  unfolding create_tables
  create_tables-Did s w =
      let d = s.db in
      let d1 = (x.sql.create_table nodes d).1 in
      let d2 = (x.sql.create_table minipools d1).1 in
      let n = l.creates nodes in
      let m = l.creates minipools in
      let b = l.creates highest_block in
      let h1 = n.reliable.stays_healthy d w.db in
      let h2 = m.reliable.stays_healthy d1 h1 in
      let e1 = n.reliable.exact d w.db in
      let e2 = m.reliable.exact d1 h1 in
      let e3 = b.reliable.exact d2 h2 in
      rw (e1, e2, e3)
        (record {
          result = refl;
          works = record { db = b.reliable.stays_healthy d2 h2; disk = w.disk };
          holds = b.committed d2 e3 ∙ (m.committed d1 e2 ∙ n.committed d e1);
          path = refl;
          height = refl;
        })

  set_highest_block-keeps :
      (n : ℤ) (s : SqliteCache D F)
      → ((set_highest_block n s).db ≡ s.db)
        × ((set_highest_block n s).disk ≡ s.disk)
        × ((set_highest_block n s).path ≡ s.path)
  unfolding set_highest_block
  set_highest_block-keeps n s = (ground arith, ground arith, ground arith)

  raised :
      (n : ℤ) (s : SqliteCache D F)
      → (set_highest_block n s).highest_block
        ≡ (if leb_ℤ n s.highest_block then s.highest_block else n)
  unfolding set_highest_block
  raised n s = ground arith

  -- The height of the table, where it is above the one in memory.
  read_height-Read :
      (s : SqliteCache D F) (n : ℤ)
      → Works x l io k s
      → (tables x l s).highest ≡ some n
      → ((read_height x io s).0 ≡ ok tt)
        × Works x l io k (read_height x io s).1
        × (tables x l (read_height x io s).1 ≡ tables x l s)
        × ((read_height x io s).1.highest_block ≡ (set_highest_block n s).highest_block)
  unfolding read_height
  read_height-Read s n w stored =
      let d = s.db in
      let d1 = (x.sql.begin_tx d).1 in
      let d2 = (x.sql.select_highest_block d1).1 in
      let d3 = (x.sql.commit d2).1 in
      let b = l.begins in
      let q = l.selects_highest_block in
      let c = l.commits in
      let h1 = b.reliable.stays_healthy d w.db in
      let h2 = q.stays_healthy d1 h1 in
      let e1 = b.reliable.exact d w.db in
      let row =
        q.exact d1 h1
        ∙ ap (λ (t : Tables). some (map some (row_of t.highest))) (b.sees d e1)
        ∙ ap (λ t. some (map some (row_of t))) stored in
      let e3 = c.reliable.exact d2 h2 in
      let s3 = record s { db = d3 } in
      let kept = set_highest_block-keeps n s3 in
      let db : (set_highest_block n s3).db ≡ d3 = kept.0 in
      let healthy_after = c.reliable.stays_healthy d2 h2 in
      rw (e1, row, e3)
        (
          refl,
          record {
            db = l.rolls_back_healthy _ (rw db healthy_after);
            disk = rw (kept.1, kept.2) w.disk;
          },
          l.rolls_back _
              ∙ (ap l.view.committed db ∙ (c.committed d2 e3 ∙ (q.working_kept d1 ∙ b.sees d e1))),
          raised n s3 ∙ sym (raised n s),
        )

  make_path_lem :
      (s : SqliteCache D F) → k.ready s.path s.disk ≡ true → make_path x io s ≡ (ok tt, s)
  unfolding make_path
  make_path_lem s ready = rw (k.finds s.path s.disk ready) refl

  load_snapshot-Did :
      (s : SqliteCache D F) (t : Tables)
      → Works x l io k s
      → io.stat (snapshot_path s.path) s.disk ≡ present
      → ((d : D) → io.open_file (snapshot_path s.path) s.disk ≡ some d → l.view.committed d ≡ t)
      → Did x l io k t s (load_snapshot x io s)
  unfolding load_snapshot
  load_snapshot-Did s t w there content =
      let (src, opened, fine) = k.opens_file s.path s.disk w.disk in
      let (cloned, still, same) = clone_lem x l io k s.db src w.db fine in
      rw (load_snapshot, there, opened, cloned)
        (record {
          result = refl;
          works = record { db = still; disk = w.disk };
          holds = same ∙ content src opened;
          path = refl;
          height = refl;
        })

  prepare-Did :
      (s : SqliteCache D F)
      → Works x l io k s
      → Did x l io k (tables x l s) s (on_db x.sql.prepare_statements s)
  prepare-Did s w =
      let p = l.prepares in
      let e = p.reliable.exact s.db w.db in
      rw e (record {
        result = refl;
        works = record { db = p.reliable.stays_healthy s.db w.db; disk = w.disk };
        holds = p.committed s.db e;
        path = refl;
        height = refl;
      })

  -- What init makes of a snapshot with the tables `t`.
  pub record Loaded (t : Tables) (n : ℤ) (after : Result CacheError (Unit {0}) × SqliteCache D F)
      : Type 0 where
    pub result : after.0 ≡ ok tt
    pub works : Works x l io k after.1
    pub holds : tables x l after.1 ≡ t
    pub height : after.1.highest_block ≡ n

  pub init-Loaded :
      (s : SqliteCache D F) (t : Tables) (n : ℕ)
      → k.ready s.path s.disk ≡ true
      → io.stat (snapshot_path s.path) s.disk ≡ present
      → ((d : D) → io.open_file (snapshot_path s.path) s.disk ≡ some d → l.view.committed d ≡ t)
      → t.highest ≡ some (pos n)
      → Loaded t (pos n) (init x io s)
  unfolding init
  init-Loaded s t n ready there content stored =
      let (d0, opened, fine) = k.opens_memory s.path s.disk ready in
      let s0 = record s { db = d0; highest_block = pos 0; m = [] } in
      let w0 : Works x l io k s0 = record { db = fine; disk = ready } in
      let made = make_path_lem s0 ready in
      let loaded = load_snapshot-Did s0 t w0 there content in
      let s2 = (load_snapshot x io s0).1 in
      let tables_made = create_tables-Did s2 loaded.works in
      let s3 = (create_tables x io s2).1 in
      let prepared = prepare-Did s3 tables_made.works in
      let s4 = (on_db x.sql.prepare_statements s3).1 in
      let t4 = prepared.holds ∙ (tables_made.holds ∙ loaded.holds) in
      let height4 = prepared.height ∙ (tables_made.height ∙ loaded.height) in
      let (done, works, holds, height) =
        read_height-Read s4 (pos n) prepared.works (ap (λ (u : Tables). u.highest) t4 ∙ stored) in
      rw (opened, made, loaded.result, tables_made.result, prepared.result)
        (record {
          result = done;
          works = works;
          holds = holds ∙ t4;
          height = height ∙ (raised (pos n) s4 ∙ highest_of_zero n s4.highest_block height4);
        })
