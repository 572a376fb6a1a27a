-- ===== src/Execution/Recipient.antt =====
-- executionlayer/execution-layer.go, `ValidatorFeeRecipient`: the fee recipient that is expected of a
-- validator, computed from the cache. `recipient_of` describes it from the cache's contents alone.
pub mod Laws
pub mod Truncated
use rescue_proxy.Prelude.{
  Bool, true, false, Option, none, some, ◌≡◌, ◌≢◌, ◌⊎◌, inl, inr, ◌==◌, not, arith, nat_eq, list_eq,
  if◌then◌else◌, refl, Option-cases, Bool-cases,
}
use rescue_proxy.Prelude.Exec.{Exec, Result, ok, err, pure, raise, ◌>>=◌, ◌>>◌}
use rescue_proxy.Cache.{
  address_eq, Address, Pubkey, NodeInfo, not_found, failed, Cache, CacheLaws, Contents, Reads,
  or_not_found,
}
use rescue_proxy.Execution.{El, Contracts, Panic, cache_failure, on_cache, count}

-- `queryNodeAddr != nil && !bytes.Equal(queryNodeAddr.Bytes(), nodeAddr.Bytes())`
unfoldable pub owned_by_another : Option Address → Address → Bool
owned_by_another none node_addr = false
owned_by_another (some query) node_addr = not (query == node_addr)

module _ {S : Type 0} (c : Cache S) (k : Contracts) where
  unfoldable pub validator_fee_recipient :
      Pubkey → Option Address → Exec (El S) Panic (Option Address × Bool)
  unfolding owned_by_another
  validator_fee_recipient pubkey query = do
    node_addr ← on_cache (c.get_minipool_node pubkey)
    elim node_addr [
      | err not_found ↦ do count "non_minipool_detected"; pure (none, false)
      | err failed ↦ raise cache_failure
      | ok addr ↦
          if owned_by_another query addr
          then (do count "minipool_unowned_by_node"; pure (none, true))
          else do
            node_info ← on_cache (c.get_node_info addr)
            elim node_info [
              | err not_found ↦ do count "cache_inconsistent"; pure (none, false)
              | err failed ↦ raise cache_failure
              | ok info ↦ pure (
                  if info.in_smoothing_pool
                  then (some k.smoothing_pool, false)
                  else (some info.fee_distributor, false))
            ]
    ]

-- The address that a node's validators have to name.
abbrev pub expected_recipient : Contracts → NodeInfo → Address
expected_recipient k info =
    if info.in_smoothing_pool then k.smoothing_pool else info.fee_distributor

abbrev pub of_node : Contracts → Option NodeInfo → Option Address × Bool
of_node k none = (none, false)
of_node k (some info) = (some (expected_recipient k info), false)

abbrev pub of_minipool :
    Contracts → Contents → Option Address → Option Address → Option Address × Bool
of_minipool k v query none = (none, false)
of_minipool k v query (some addr) =
    if owned_by_another query addr then (none, true) else of_node k (v.nodes addr)

-- The specification: what the contents of the cache say of a validator.
abbrev pub recipient_of : Contracts → Contents → Pubkey → Option Address → Option Address × Bool
recipient_of k v pubkey query = of_minipool k v query (v.minipools pubkey)
