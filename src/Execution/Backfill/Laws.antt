-- ===== src/Execution/Backfill/Laws.antt =====
-- Backfilling replays exactly the events that it is given, and reaches the latest block.
use rescue_proxy.Prelude.{true, false, none, some, List, [], ◌∷◌, ◌≡◌, refl, arith}
use rescue_proxy.Prelude.Int.{ℤ, pos, ◌+ℤ◌, ltb_ℤ}
use rescue_proxy.Prelude.Exec.{Result, ok}
use rescue_proxy.Cache.{address_eq, Cache, CacheLaws, Contents, with_highest}
use rescue_proxy.Execution.{El, Contracts, Chain, Log, Panic}
use rescue_proxy.Execution.Events.{handle_event}
use rescue_proxy.Execution.Events.Changes.{Change, change_of, apply_at}
use rescue_proxy.Execution.Events.Laws.{Changes, handle_event-Changes}
use rescue_proxy.Execution.Backfill.{
  Client, RpcError, nil, rpc_error, handle_missed, backfill_events,
}

-- Each event has all its topics.
abbrev pub AllSay : Contracts → Chain → List Log → List Change → Type 0
AllSay k chain [] [] = Unit
AllSay k chain (e ∷ es) (ch ∷ chs) = (change_of k chain e ≡ some ch) × AllSay k chain es chs
AllSay k chain _ _ = ⊥

-- The events' changes, one after the other.
unfoldable pub apply_all : List Log → List Change → Contents → Contents
apply_all (e ∷ es) (ch ∷ chs) v = apply_all es chs (apply_at e.block_number ch v)
apply_all _ _ v = v

module _ {S : Type 0} {c : Cache S} (l : CacheLaws c) (k : Contracts) (chain : Chain) where
  pub handle_missed-Changes :
      (events : List Log) (changes : List Change) (el : El S)
      → AllSay k chain events changes
      → l.healthy el.cache ≡ true
      → Changes l el.cache (apply_all events changes) (handle_missed c k chain events el)
  unfolding handle_missed apply_all
  handle_missed-Changes [] [] el said h = record { result = refl; contents = refl; healthy = h }
  handle_missed-Changes [] (ch ∷ chs) el said h = elim said [ ]
  handle_missed-Changes (e ∷ es) [] el said h = elim said [ ]
  handle_missed-Changes (e ∷ es) (ch ∷ chs) el (here, later) h =
      let first = handle_event-Changes l k chain e ch el here h in
      let el' = record (handle_event c k chain e el).1 {
        m = ("backfill_events", 1) ∷ (handle_event c k chain e el).1.m;
      } in
      let rest = handle_missed-Changes es chs el' later first.healthy in ground (arith, first, rest)

  -- The run returns `r`, and leaves a healthy cache with contents `v`.
  pub record Backfilled (v : Contents) (r : RpcError) (after : Result Panic RpcError × El S)
      : Type 0 where
    pub result : after.0 ≡ ok r
    pub contents : l.contents after.1.cache ≡ v
    pub healthy : l.healthy after.1.cache ≡ true

  -- On a healthy cache, where the latest block is above the highest one and the client has the events
  -- from the block after the highest to the latest, each with all its topics: they are handled in order,
  -- the height rises to the latest block at least, there is no error, and the cache stays healthy.
  pub backfill_events-Backfilled :
      (client : Client) (stop : ℤ) (events : List Log) (changes : List Change) (el : El S)
      → l.healthy el.cache ≡ true
      → client.latest ≡ some stop
      → ltb_ℤ stop ((l.contents el.cache).highest +ℤ pos 1) ≡ false
      → client.filter_logs ((l.contents el.cache).highest +ℤ pos 1) stop ≡ some events
      → AllSay k chain events changes
      → Backfilled
          (with_highest stop (apply_all events changes (l.contents el.cache)))
          nil
          (backfill_events c k chain client el)
  unfolding backfill_events
  backfill_events-Backfilled client stop events changes el h latest gap logs said =
      let done = handle_missed-Changes events changes el said h in
      let s' = (handle_missed c k chain events el).1.cache in
      rw (l.height el.cache, latest, gap, logs)
        (ground (arith, done, l.raises stop s', l.raises_healthy stop s'))

  -- Without a gap, and on an error of the client, nothing changes.
  pub backfill_events_unchanged :
      (client : Client) (el : El S)
      → ((client.latest ≡ none) → backfill_events c k chain client el ≡ (ok rpc_error, el))
        × ((stop : ℤ)
            → client.latest ≡ some stop
            → ltb_ℤ stop ((l.contents el.cache).highest +ℤ pos 1) ≡ true
            → backfill_events c k chain client el ≡ (ok nil, el))
        × ((stop : ℤ)
            → client.latest ≡ some stop
            → client.filter_logs ((l.contents el.cache).highest +ℤ pos 1) stop ≡ none
            → ltb_ℤ stop ((l.contents el.cache).highest +ℤ pos 1) ≡ false
            → backfill_events c k chain client el ≡ (ok rpc_error, el))
  unfolding backfill_events
  backfill_events_unchanged client el = (
    λ e. rw e refl,
    λ stop e gap. rw (l.height el.cache, e, gap) refl,
    λ stop e failed gap. rw (l.height el.cache, e, gap, failed) refl,
  )
