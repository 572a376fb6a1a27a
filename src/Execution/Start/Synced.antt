-- ===== src/Execution/Start/Synced.antt =====
-- `Init` brings the cache up to the chain: from the snapshot of a warm cache, or from the chain's state.
use rescue_proxy.Prelude.{ℕ, true, false, some, List, ◌≡◌, refl, ◌∙◌, sym, subst}
use rescue_proxy.Prelude.Int.{ℤ, pos, ◌+ℤ◌, ltb_ℤ, max_ℤ_self}
use rescue_proxy.Prelude.Exec.{Result, ok}
use rescue_proxy.Cache.{address_eq, Address, Cache, CacheLaws, Contents, IsCleared, with_highest}
use rescue_proxy.Execution.{El, Contracts, Log}
use rescue_proxy.Execution.Events.Changes.{Change}
use rescue_proxy.Execution.Backfill.{nil, backfill_events}
use rescue_proxy.Execution.Backfill.Laws.{
  AllSay, apply_all, Backfilled, backfill_events-Backfilled, backfill_events_unchanged,
}
use rescue_proxy.Execution.Connection.{Connection}
use rescue_proxy.Execution.Start.{
  Rocketpool, Feed, StartError, contracts_at, is_zero_ℤ, is_stale, warm_up, ec_events_connect,
  load_contracts, init, fresh_cache_block, connect,
}
use rescue_proxy.Execution.Start.Preloaded.{ChainState, IsRead, preloaded, warm_up-Stored}

-- What backfilling makes of the contents `v` while the client answers: nothing where the latest block is no
-- further than the height, else the events of the blocks in between, each with all its topics.
pub data CatchesUp (k : Contracts) (feed : Feed) (v : Contents) : Contents → Type 0 where
  no_gap :
      (stop : ℤ)
      → feed.client.latest ≡ some stop
      → ltb_ℤ stop (v.highest +ℤ pos 1) ≡ true
      → CatchesUp k feed v v
  gap :
      (stop : ℤ) (events : List Log) (changes : List Change)
      → feed.client.latest ≡ some stop
      → ltb_ℤ stop (v.highest +ℤ pos 1) ≡ false
      → feed.client.filter_logs (v.highest +ℤ pos 1) stop ≡ some events
      → AllSay k feed.chain events changes
      → CatchesUp k feed v (with_highest stop (apply_all events changes v))

-- The execution client is there, its latest block is `block`, and rocketpool-go finds the contracts.
pub record IsReached (rp : Rocketpool) (block : ℤ) (manager minipools pool : Address) : Type 0 where
  pub dial : rp.dial ≡ some tt
  pub new_rocket_pool : rp.new_rocket_pool ≡ some tt
  pub latest : rp.header ≡ some block
  pub finds_manager : rp.get_contract "rocketNodeManager" block ≡ some manager
  pub finds_minipools : rp.get_contract "rocketMinipoolManager" block ≡ some minipools
  pub finds_pool : rp.get_contract "rocketSmoothingPool" block ≡ some pool

module _ {S : Type 0} {c : Cache S} (l : CacheLaws c) where
  -- `Init` or a part of it returns `a`, over a healthy cache with the contents `v` and with the two
  -- subscriptions to give up at the end.
  pub record Started {A : Type 0} (a : A) (v : Contents) (subs : ℕ × ℕ)
      (after : Result StartError A × Connection S) : Type 0 where
    pub result : after.0 ≡ ok a
    pub contents : l.contents after.1.el.cache ≡ v
    pub healthy : l.healthy after.1.el.cache ≡ true
    pub subscribed : after.1.shutdown_cb ≡ some subs

  kept_height : (v : Contents) → with_highest v.highest v ≡ v
  kept_height v i = record v { highest = max_ℤ_self v.highest i }

  caught_up :
      (k : Contracts) (feed : Feed) (el : El S) (v' : Contents)
      → l.healthy el.cache ≡ true
      → CatchesUp k feed (l.contents el.cache) v'
      → Backfilled l k feed.chain v' nil (backfill_events c k feed.chain feed.client el)
  caught_up k feed el v' h (no_gap stop latest none_missed) =
      rw ((backfill_events_unchanged l k feed.chain feed.client el).1 stop latest none_missed)
        (record { result = refl; contents = refl; healthy = h })
  caught_up k feed el v' h (gap stop events changes latest missed logs said) =
      backfill_events-Backfilled l k feed.chain feed.client stop events changes el h latest missed
        logs said

  ec_events_connect-Started :
      (k : Contracts) (feed : Feed) (block : ℤ) (logs heads : ℕ) (s : Connection S) (v' : Contents)
      → l.healthy s.el.cache ≡ true
      → feed.subscribe_logs ≡ some logs
      → feed.subscribe_heads ≡ some heads
      → CatchesUp k feed (with_highest block (l.contents s.el.cache)) v'
      → Started tt v' (logs, heads) (ec_events_connect c k feed block s)
  unfolding ec_events_connect
  ec_events_connect-Started k feed block logs heads s v' h sub sub' up =
      let el1 = record s.el { cache = c.set_highest_block block s.el.cache } in
      let filled =
        caught_up k feed el1 v' (l.raises_healthy block s.el.cache ∙ h)
          (rw (l.raises block s.el.cache) up) in
      rw (sub, sub', filled.result)
        (record {
          result = refl;
          contents = filled.contents;
          healthy = filled.healthy;
          subscribed = refl;
        })

  module _ (rp : Rocketpool) (feed : Feed) (header : ℤ) (manager minipools pool : Address)
      (reached : IsReached rp header manager minipools pool) (logs heads : ℕ)
      (sub : feed.subscribe_logs ≡ some logs) (sub' : feed.subscribe_heads ≡ some heads) where
    abbrev k : Contracts
    k = contracts_at rp manager minipools pool

    -- `Init` over a cache that its own `init` loads at a height that is neither 0 nor stale: while the
    -- execution client answers, it succeeds without reading the nodes. The contents are those loaded, with
    -- the events from the block after their height to the client's latest, if there are such blocks, where
    -- each of these has all its topics.
    pub init-Started_warm :
        (s : Connection S) (s0 : S) (v' : Contents)
        → c.init s.el.cache ≡ (ok tt, s0)
        → l.healthy s0 ≡ true
        → is_stale header (l.contents s0).highest ≡ false
        → is_zero_ℤ (l.contents s0).highest ≡ false
        → CatchesUp k feed (l.contents s0) v'
        → Started k v' (logs, heads) (init c rp feed s)
    unfolding init fresh_cache_block load_contracts connect
    init-Started_warm s s0 v' loaded h fresh warm up =
        let s1 = record s { el = record s.el { cache = s0 } } in
        let raised = kept_height (l.contents s0) in
        let done =
          ec_events_connect-Started k feed (l.contents s0).highest logs heads s1 v' h sub sub'
            (subst (λ v. CatchesUp k feed v v') (sym raised) up) in
        rw
          (
            loaded,
            l.height s0,
            reached.dial,
            reached.new_rocket_pool,
            reached.latest,
            fresh,
            reached.finds_manager,
            reached.finds_minipools,
            reached.finds_pool,
            warm,
            done.result,
          )
          (record {
            result = refl;
            contents = done.contents;
            healthy = done.healthy;
            subscribed = done.subscribed;
          })

    -- `Init` over a cache that its own `init` loads at a height from the future, or more than 64
    -- blocks back: while the execution client and rocketpool-go answer, it succeeds. The cache is
    -- cleared and then holds the chain's nodes and minipools at the client's block, with the events
    -- that it catches up with, where each has all its topics.
    pub init-Started_cold :
        (t : ChainState) (s : Connection S) (s0 : S) (v' : Contents)
        → c.init s.el.cache ≡ (ok tt, s0)
        → l.healthy s0 ≡ true
        → is_stale header (l.contents s0).highest ≡ true
        → IsRead rp header t
        → CatchesUp k feed
            (with_highest header (preloaded t t.nodes (l.contents (c.reset s0).1)))
            v'
        → Started k v' (logs, heads) (init c rp feed s) × IsCleared (l.contents (c.reset s0).1)
    unfolding init fresh_cache_block load_contracts connect
    init-Started_cold t s s0 v' loaded h stale read up =
        let (done, fine, cleared) = l.resets s0 h in
        let s1 = record s { el = record s.el { cache = (c.reset s0).1 } } in
        let stored = warm_up-Stored l rp header t read s1 fine in
        let s2 = (warm_up c rp header s1).1 in
        let connected =
          ec_events_connect-Started k feed header logs heads s2 v' stored.healthy sub sub'
            (subst (λ v. CatchesUp k feed (with_highest header v) v') (sym stored.contents) up) in
        rw
          (
            loaded,
            l.height s0,
            reached.dial,
            reached.new_rocket_pool,
            reached.latest,
            stale,
            done,
            reached.finds_manager,
            reached.finds_minipools,
            reached.finds_pool,
            stored.result,
            connected.result,
          )
          (
            record {
              result = refl;
              contents = connected.contents;
              healthy = connected.healthy;
              subscribed = connected.subscribed;
            },
            cleared,
          )
