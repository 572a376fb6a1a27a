-- ===== src/Execution/Start/Stopped.antt =====
-- `Deinit`, and the start of the next process: what is waiting is handled before the cache is saved.
use rescue_proxy.Prelude.{
  ℕ, ◌<◌, ◌^◌, Bool, true, false, some, List, ◌≡◌, refl, ap, ◌∙◌, sym, subst,
}
use rescue_proxy.Prelude.Int.{pos}
use rescue_proxy.Prelude.Exec.{Result, ok}
use rescue_proxy.Cache.{address_eq, Cache, Contents}
use rescue_proxy.Cache.Sqlite.{SqliteCache, Library}
use rescue_proxy.Cache.Sqlite.Sql.{SqlLaws}
use rescue_proxy.Cache.Sqlite.Transactions.{contents}
use rescue_proxy.Cache.Sqlite.Files.{Disk, sqlite_cache}
use rescue_proxy.Cache.Sqlite.Files
use rescue_proxy.Cache.Sqlite.Files.Snapshot.{DiskLaws}
use rescue_proxy.Cache.Sqlite.Files.Restart.{init-deinit_roundtrip}
use rescue_proxy.Cache.Sqlite.Laws.{sqlite_laws}
use rescue_proxy.Execution.{El, Contracts, Panic}
use rescue_proxy.Execution.Connection.Drain.{Drains, listen-Drained}
use rescue_proxy.Execution.Connection.{Connection, Message, listen, begin_deinit}
use rescue_proxy.Execution.Connection.Follow.{listening}
use rescue_proxy.Execution.Start.{drain, deinit_if, deinit}

begin_deinit_el :
    {S : Type 0} (c : Cache S) (k : Contracts) (s : Connection S) (subs : ℕ × ℕ)
    → s.shutdown_cb ≡ some subs
    → (begin_deinit c k s).el ≡ s.el
unfolding begin_deinit
begin_deinit_el c k s subs e = rw e refl

begin_deinit_shutdown :
    {S : Type 0} (c : Cache S) (k : Contracts) (s : Connection S) (subs : ℕ × ℕ)
    → s.shutdown_cb ≡ some subs
    → (begin_deinit c k s).shutdown ≡ true
unfolding begin_deinit
begin_deinit_shutdown c k s subs e = rw e refl

module _ {S : Type 0} (c : Cache S) (k : Contracts) (messages : List Message)
    (s : Connection S) where
  abbrev at_end : S
  at_end = (listen c k messages (listening (begin_deinit c k s))).1.conn.el.cache

  -- Once the goroutine has ended, `Deinit` stops the cache and returns.
  abbrev StopsCache : Result Panic Bool × Connection S → Type 0
  StopsCache after = (after.0 ≡ ok true) × (after.1.el.cache ≡ (c.deinit at_end).1)

  deinit_if-StopsCache :
      (subs : ℕ × ℕ)
      → (listen c k messages (listening (begin_deinit c k s))).0 ≡ ok false
      → StopsCache (deinit_if c k messages (some subs) s)
  unfolding drain
  deinit_if-StopsCache subs ended = rw (drain, ended) (refl, refl)

  deinit-StopsCache :
      (subs : ℕ × ℕ)
      → s.shutdown_cb ≡ some subs
      → (listen c k messages (listening (begin_deinit c k s))).0 ≡ ok false
      → StopsCache (deinit c k messages s)
  unfolding deinit
  deinit-StopsCache subs e ended =
      subst (λ o. StopsCache (deinit_if c k messages o s)) (sym e) (deinit_if-StopsCache subs ended)

sqlite_deinit :
    {D F : Type 0} (x : Library D) (io : Disk D F) (s : SqliteCache D F)
    → (sqlite_cache x io).deinit s ≡ Files.deinit x io s
unfolding sqlite_cache
sqlite_deinit x io s = refl

module _ {D F : Type 0} (x : Library D) (l : SqlLaws x) (io : Disk D F) (files : DiskLaws io l.view)
    (k : Contracts) where
  -- The cache when the goroutine has ended.
  abbrev pub drained : List Message → Connection (SqliteCache D F) → SqliteCache D F
  drained messages s = at_end (sqlite_cache x io) k messages s

  -- `Deinit` of a process that is subscribed, over the SQLite cache, while its database works and the
  -- cache's directory is there and can be used. In whatever order the events and headers that wait, the
  -- ends of the two channels and errors of the subscriptions arrive: where each event has all its topics
  -- and both ends arrive, it returns, and the process that starts next at the same path and on the disk
  -- it left loads the contents with the changes of all these events and headers, if their height is an
  -- int64 and not negative.
  pub deinit-init_restart :
      (messages : List Message) (s : Connection (SqliteCache D F)) (subs : ℕ × ℕ) (v : Contents)
      (t : SqliteCache D F) (n : ℕ)
      → s.shutdown_cb ≡ some subs
      → l.view.healthy s.el.cache.db ≡ true
      → Drains k false false messages (contents x l s.el.cache) v
      → v.highest ≡ pos n
      → n < 2 ^ 63
      → files.ready (drained messages s).path (drained messages s).disk ≡ true
      → t.path ≡ (drained messages s).path
      → t.disk ≡ (deinit (sqlite_cache x io) k messages s).1.el.cache.disk
      → ((deinit (sqlite_cache x io) k messages s).0 ≡ ok true)
        × ((Files.init x io t).0 ≡ ok tt)
        × (contents x l (Files.init x io t).1 ≡ v)
  unfolding sqlite_laws
  deinit-init_restart messages s subs v t n open_subs h run height small ready same_path same_disk =
      let c = sqlite_cache x io in
      let begun = begin_deinit_el c k s subs open_subs in
      let done =
        listen-Drained (sqlite_laws x l io) k run (listening (begin_deinit c k s)) refl refl
          (begin_deinit_shutdown c k s subs open_subs)
          (ap (λ (el : El (SqliteCache D F)). contents x l el.cache) begun) (rw begun h) refl in
      let (returns, stopped) = deinit-StopsCache c k messages s subs open_subs done.result in
      let (saved, loads, same, works) =
        init-deinit_roundtrip x l io files (drained messages s) t n
          (record { db = done.healthy; disk = ready })
          (ap (λ (v : Contents). v.highest) done.contents ∙ height) small same_path
          (same_disk
            ∙ ap (λ (u : SqliteCache D F). u.disk)
                (stopped ∙ ap (λ r. r.1) (sqlite_deinit x io (drained messages s)))) in
      (returns, loads, same ∙ done.contents)
