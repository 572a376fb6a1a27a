-- ===== src/Metrics/Epoch/Bounds.antt =====
-- metrics/epoch.go: every index into the array of four buckets is in its bounds.
use rescue_proxy.Prelude.{ℕ, ◌<◌, ◌≢◌, arith, nat_eq}
use rescue_proxy.Cache.{address_eq, Address, Pubkey}
use rescue_proxy.Metrics.Epoch.{Epochs, on_head, observe_validator, previous_epoch_idx}

-- Any heads and observations, from a start.
pub data Reachable (start : Epochs) : Epochs → Type 0 where
  begins : Reachable start start
  heads : (epoch : ℕ) (s : Epochs) → Reachable start s → Reachable start (on_head epoch s)
  observes :
      (node : Address) (pubkey : Pubkey) (s : Epochs)
      → Reachable start s
      → Reachable start (observe_validator node pubkey s)

on_head-bound : (epoch : ℕ) (s : Epochs) → s.current_idx < 4 → (on_head epoch s).current_idx < 4
unfolding on_head
on_head-bound epoch s h = ground arith

current_bound : (start s : Epochs) → start.current_idx < 4 → Reachable start s → s.current_idx < 4
unfolding observe_validator
current_bound start s h begins = h
current_bound start s h (heads epoch s' earlier) =
    on_head-bound epoch s' (current_bound start s' h earlier)
current_bound start s h (observes node pubkey s' earlier) = current_bound start s' h earlier

-- From a start whose index is below 4, after any heads of any epochs and any observations: the index of the
-- bucket that is written and the one of the bucket that the gauges read are below 4, and they differ.
pub Reachable-bounds :
    (start s : Epochs)
    → start.current_idx < 4
    → Reachable start s
    → (s.current_idx < 4) × (previous_epoch_idx s < 4) × (previous_epoch_idx s ≢ s.current_idx)
unfolding previous_epoch_idx
Reachable-bounds start s h steps =
    let b = current_bound start s h steps in (b, ground arith, λ same. ground arith)
