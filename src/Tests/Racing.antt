-- ===== src/Tests/Racing.antt =====
-- Two callers that race for the same metric.
use rescue_proxy.Prelude.{ℕ, List, [], ◌∷◌, String, ◌≡◌, refl, some, arith, string_eq}
use rescue_proxy.Prelude.Map
use rescue_proxy.Metrics.Registry.{Metric, calling, returned, value, run, start}
use rescue_proxy.Metrics.Registry.Unique.{Distinct, Grows, value_unique, value_returns}

abbrev names : ℕ → String
names t = "cache_hit"

-- Both miss under the read lock, and then take the full lock in turn.
abbrev schedule : List ℕ
schedule = 0 ∷ 1 ∷ 0 ∷ 1 ∷ []

raced : (run schedule (start names)).callers 1 ≡ returned "cache_hit" 0
unfolding run value Map.get Map.put
raced = refl

value_unique_example :
    Distinct (run schedule (start names)).registry.made
    × ((t u : ℕ) (name : String) (val val' : Metric)
        → (run schedule (start names)).callers t ≡ returned name val
        → (run schedule (start names)).callers u ≡ returned name val'
        → val ≡ val')
value_unique_example = value_unique names schedule

grown :
    Grows
      (value (calling "cache_hit") (start names).registry).1
      (run schedule (start names)).registry
unfolding value Map.get
grown name val h = ground (arith, h)

value_returns_example :
    let after =
      value
        (value (calling "cache_hit") (start names).registry).0
        (run schedule (start names)).registry in
    (val : Metric) × (after.0 ≡ returned "cache_hit" val)
    × (Map.get "cache_hit" after.1.m ≡ some val)
value_returns_example =
    value_returns "cache_hit" (start names).registry (run schedule (start names)).registry grown
