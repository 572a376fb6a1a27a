-- ===== src/Execution/Events.antt =====
-- executionlayer/execution-layer.go: the handlers of the chain's events.
pub mod Changes
pub mod Laws
use rescue_proxy.Prelude.{
  ℕ, Bytes, Bool, true, false, Option, none, some, List, [], ◌∷◌, ◌==◌, nat_eq, list_eq,
  if◌then◌else◌,
}
use rescue_proxy.Prelude.Int.{ℤ, int64_of_uint64}
use rescue_proxy.Prelude.Exec.{Exec, Result, ok, err, pure, raise, ◌>>=◌, ◌>>◌}
use rescue_proxy.Cache.{address_eq, Address, NodeInfo, CacheError, not_found, failed, Cache}
use rescue_proxy.Execution.{
  El, Contracts, Chain, Log, Panic, cache_failure, on_cache, count, topic, big_endian,
}

-- A node that the cache has no record of: not in the smoothing pool.
abbrev pub fresh_node : Chain → Address → NodeInfo
fresh_node chain addr = record {
  in_smoothing_pool = false;
  fee_distributor = (chain.distributor_address addr).0;
}

-- `err` of `getNodeInfo`: a missing node is made up, any other error panics.
abbrev pub known_or_fresh :
    {S : Type 0} → Chain → Address → Result CacheError NodeInfo → Exec (El S) Panic NodeInfo
known_or_fresh chain addr (ok n) = pure n
known_or_fresh chain addr (err not_found) = pure (fresh_node chain addr)
known_or_fresh chain addr (err failed) = raise cache_failure

module _ {S : Type 0} (c : Cache S) (k : Contracts) (chain : Chain) where
  unfoldable pub handle_node_event : Log → Exec (El S) Panic (Unit {0})
  unfolding big_endian
  handle_node_event event = do
    topic0 ← topic event 0
    if topic0 == k.node_registered
        then (do
          topic1 ← topic event 1
          let addr = chain.bytes_to_address topic1
          _ ← on_cache (c.add_node_info addr (fresh_node chain addr))
          count "node_registration_added")
        else if topic0 == k.smoothing_pool_status_changed
        then (do
          topic1 ← topic event 1
          let node_addr = chain.bytes_to_address topic1
          let status = big_endian event.payload
          node_info ← on_cache (c.get_node_info node_addr)
          n ← known_or_fresh chain node_addr node_info
          _ ← on_cache (c.add_node_info node_addr (record n { in_smoothing_pool = status == 1 }))
          count "smoothing_pool_status_changed")
        else pure tt

  unfoldable pub handle_minipool_event : Log → Exec (El S) Panic (Unit {0})
  handle_minipool_event event = do
    topic0 ← topic event 0
    if topic0 == k.minipool_launched
        then (do
          topic2 ← topic event 2
          let node_addr = chain.bytes_to_address topic2
          topic1 ← topic event 1
          let minipool_addr = chain.bytes_to_address topic1
          elim (chain.minipool_pubkey minipool_addr) [
            | none ↦ pure tt
            | some pubkey ↦ do
              _ ← on_cache (c.add_minipool_node pubkey node_addr)
              count "minipool_launch_received"
          ])
        else pure tt

  -- e.cache.setHighestBlock(block)
  abbrev pub advance : ℤ → Exec (El S) Panic (Unit {0})
  advance block el = (ok tt, record el { cache = c.set_highest_block block el.cache })

  unfoldable pub handle_event : Log → Exec (El S) Panic (Unit {0})
  handle_event event = do
    count "subscription_event_received"
    if k.node_manager == event.address
        then handle_node_event event
        else if k.minipool_manager == event.address
        then handle_minipool_event event
        else pure tt
    advance (int64_of_uint64 event.block_number)
