-- ===== src/Execution/Events/Laws.antt =====
-- Each handler makes the change that its event says, and moves the height on.
use rescue_proxy.Prelude.{
  Bytes, true, some, List, [], ◌∷◌, ◌≡◌, refl, arith, inl, inr, Bool-cases, Option-cases, ◌==◌,
  nat_eq, list_eq,
}
use rescue_proxy.Prelude.Int.{int64_of_uint64}
use rescue_proxy.Prelude.Exec.{Result, ok, continue}
use rescue_proxy.Cache.{address_eq, Contents, Cache, CacheLaws, Writes}
use rescue_proxy.Execution.{El, Contracts, Chain, Log, Panic, big_endian}
use rescue_proxy.Execution.Events.{
  handle_node_event, handle_minipool_event, handle_event, advance, fresh_node,
}
use rescue_proxy.Execution.Events.Changes.{
  Change, node_change, minipool_change, change_of, apply, apply_at,
}

module _ {S : Type 0} {c : Cache S} (l : CacheLaws c) where
  -- The call returns, and has changed the contents by `change`; the cache is healthy still.
  pub record Changes (s : S) (change : Contents → Contents) (after : Result Panic (Unit {0}) × El S)
      : Type 0 where
    pub result : after.0 ≡ ok tt
    pub contents : l.contents after.1.cache ≡ change (l.contents s)
    pub healthy : l.healthy after.1.cache ≡ true

  -- A write that cannot fail makes its change.
  pub written :
      (m : S → Result _ (Unit {0}) × S) (change : Contents → Contents) (s : S)
      → Writes l.contents l.healthy m change
      → l.healthy s ≡ true
      → (l.contents (m s).1 ≡ change (l.contents s)) × (l.healthy (m s).1 ≡ true)
  written m change s w h = ground (arith, w.exact s h, w.atomic s, w.stays_healthy s h)

  module _ (k : Contracts) (chain : Chain) where
    node_event-Changes :
        (event : Log) (topics : List Bytes) (change : Change) (el : El S)
        → event.topics ≡ topics
        → node_change k chain event topics ≡ some change
        → l.healthy el.cache ≡ true
        → Changes el.cache (apply change) (handle_node_event c k chain event el)
    unfolding handle_node_event apply
    node_event-Changes event [] change el e said h = cc
    node_event-Changes event (t ∷ []) change el e said h = ground arith
    node_event-Changes event (t ∷ a ∷ more) change el e said h =
        let addr = chain.bytes_to_address a in
        let g = l.gets_node addr in
        let s' = (c.get_node_info addr el.cache).1 in
        let joined = big_endian event.payload == 1 in
        let fresh = fresh_node chain addr in
        elim (Option-cases ((l.contents el.cache).nodes addr)) [
          | inl missing ↦
              let n = record fresh { in_smoothing_pool = joined } in
              ground (
                arith,
                g.exact el.cache,
                g.kept el.cache,
                g.stays_healthy el.cache,
                written _ _ el.cache (l.adds_node addr fresh),
                written _ _ s' (l.adds_node addr n),
              )
          | inr (old, found) ↦
              let n = record old { in_smoothing_pool = joined } in
              ground (
                arith,
                g.exact el.cache,
                g.kept el.cache,
                g.stays_healthy el.cache,
                written _ _ el.cache (l.adds_node addr fresh),
                written _ _ s' (l.adds_node addr n),
              )
        ]

    minipool_event-Changes :
        (event : Log) (topics : List Bytes) (change : Change) (el : El S)
        → event.topics ≡ topics
        → minipool_change k chain topics ≡ some change
        → l.healthy el.cache ≡ true
        → Changes el.cache (apply change) (handle_minipool_event c k chain event el)
    unfolding handle_minipool_event apply
    minipool_event-Changes event [] change el e said h = cc
    minipool_event-Changes event (t ∷ []) change el e said h = ground arith
    minipool_event-Changes event (t ∷ m ∷ []) change el e said h = ground arith
    minipool_event-Changes event (t ∷ m ∷ n ∷ more) change el e said h =
        elim (Option-cases (chain.minipool_pubkey (chain.bytes_to_address m))) [
          | inl missing ↦ ground arith
          | inr (p, found) ↦
              ground (arith, written _ _ el.cache (l.adds_minipool p (chain.bytes_to_address n)))
        ]

    advanced :
        {s : S} (event : Log) (change : Change) (after : Result Panic (Unit {0}) × El S)
        → Changes s (apply change) after
        → Changes s
            (apply_at event.block_number change)
            (continue after.0 (λ _. advance c k chain (int64_of_uint64 event.block_number)) after.1)
    advanced event change after done = ground (
      arith,
      l.raises (int64_of_uint64 event.block_number) after.1.cache,
      l.raises_healthy (int64_of_uint64 event.block_number) after.1.cache,
    )

    -- On a healthy cache the handler of an event with all its topics returns, makes the change that
    -- the event says, and raises the height to the event's block; the cache stays healthy.
    pub handle_event-Changes :
        (event : Log) (change : Change) (el : El S)
        → change_of k chain event ≡ some change
        → l.healthy el.cache ≡ true
        → Changes el.cache (apply_at event.block_number change) (handle_event c k chain event el)
    unfolding handle_event change_of apply
    handle_event-Changes event change el said h =
        let counted = record el { m = ("subscription_event_received", 1) ∷ el.m } in
        elim (Bool-cases (k.node_manager == event.address)) [
          | inl node ↦ rw node (
              advanced event change _
                (node_event-Changes event _ change counted refl (ground arith) h))
          | inr other ↦ elim (Bool-cases (k.minipool_manager == event.address)) [
            | inl minipool ↦
                rw (other, minipool)
                  (advanced event change _
                    (minipool_event-Changes event _ change counted refl (ground arith) h))
            | inr unknown ↦
                rw (other, unknown) (advanced event change (ok tt, counted) (ground arith))
          ]
        ]
