-- ===== src/Metrics/Epoch/Gauges.antt =====
-- metrics/epoch.go: the gauges that `InitEpochMetrics` registers. Each is computed when it is read.
use rescue_proxy.Cache.{address_eq}
use rescue_proxy.Prelude.{ℕ, List, [], ◌∷◌, String}
use rescue_proxy.Metrics.Epoch.{
  Epochs, previous_epoch_idx, previous_epoch_nodes, previous_epoch_validators,
}

-- CurrentIdx and PreviousIdx, whose float64 is exact for an index below 4.
abbrev pub current_idx_value : Epochs → ℕ
current_idx_value s = s.current_idx

abbrev pub previous_idx : Epochs → ℕ
previous_idx s = previous_epoch_idx s

unfoldable pub init_epoch_metrics : List (String × (Epochs → ℕ))
init_epoch_metrics =
    ("validators_seen", previous_epoch_validators)
    ∷ ("nodes_seen", previous_epoch_nodes)
    ∷ ("current_idx", current_idx_value)
    ∷ ("previous_idx", previous_idx)
    ∷ []
