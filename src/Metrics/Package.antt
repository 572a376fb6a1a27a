-- ===== src/Metrics/Package.antt =====
-- metrics/metrics.go: the package's singleton, and the metrics of a registry by kind and name. promauto's
-- constructors are what creates a metric, in `value`; `NewGaugeFunc` adds one that calls a function.
use rescue_proxy.Cache.{address_eq}
use rescue_proxy.Prelude.{
  Bool, true, false, Option, none, some, List, [], ◌∷◌, ◌≡◌, refl, String, Option-cases, inl, inr,
  length, arith, string_eq,
}
use rescue_proxy.Prelude.Map
use rescue_proxy.Metrics.Registry.{MetricsMap, Caller, calling, value}

-- `mtx`: the namespace, or nil before `Init`.
abbrev pub Package : Type 0
Package = Option String

-- Whether it succeeds: only once before a `Deinit`.
unfoldable pub init : String → Package → Bool × Package
init namespace none = (true, some namespace)
init namespace (some old) = (false, some old)

unfoldable pub deinit : Package → Package
deinit mtx = none

pub record Opts : Type 0 where
  pub namespace : String
  pub subsystem : String
  pub name : String

pub record MetricsRegistry : Type 0 where
  pub subsystem : String
  pub counters : MetricsMap
  pub gauges : MetricsMap
  pub histograms : MetricsMap
  -- the gauges that call a function
  pub functions : List Opts

abbrev pub no_metrics : MetricsMap
no_metrics = record { m = []; made = [] }

unfoldable pub new_metrics_registry : String → MetricsRegistry
new_metrics_registry subsystem = record {
  subsystem = subsystem;
  counters = no_metrics;
  gauges = no_metrics;
  histograms = no_metrics;
  functions = [];
}

-- A call of `value` that nothing comes between: its two sections.
unfoldable pub fetch : String → MetricsMap → Caller × MetricsMap
fetch name r = let (pc, r') = value (calling name) r in value pc r'

-- The three lookups, and what is registered; none is the panic on `mtx.namespace` before `Init`.
unfoldable pub counter : Package → String → MetricsRegistry → Option (Caller × MetricsRegistry)
unfolding fetch
counter none name r = none
counter (some namespace) name r =
    let (found, m) = fetch name r.counters in some (found, record r { counters = m })

unfoldable pub gauge : Package → String → MetricsRegistry → Option (Caller × MetricsRegistry)
unfolding fetch
gauge none name r = none
gauge (some namespace) name r =
    let (found, m) = fetch name r.gauges in some (found, record r { gauges = m })

unfoldable pub histogram : Package → String → MetricsRegistry → Option (Caller × MetricsRegistry)
unfolding fetch
histogram none name r = none
histogram (some namespace) name r =
    let (found, m) = fetch name r.histograms in some (found, record r { histograms = m })

unfoldable pub gauge_func : Package → String → MetricsRegistry → Option MetricsRegistry
gauge_func none name r = none
gauge_func (some namespace) name r = some (record r {
  functions = record { namespace = namespace; subsystem = r.subsystem; name = name } ∷ r.functions;
})

-- A second lookup of a name finds the metric of the first, and creates nothing.
fetch_again : (name : String) (r : MetricsMap) → fetch name (fetch name r).1 ≡ fetch name r
unfolding fetch value
fetch_again name r = elim (Option-cases (Map.get name r.m)) [
  | inr (val, found) ↦ rw (found, found) refl
  | inl missing ↦ rw (missing, missing, Map.get-put_self name (length r.made) r.m) refl
]

-- So a counter that is looked up again is the same one, and the registry does not change.
counter_again :
    (namespace name : String) (r r' : MetricsRegistry) (found : Caller)
    → counter (some namespace) name r ≡ some (found, r')
    → counter (some namespace) name r' ≡ some (found, r')
unfolding counter
counter_again namespace name r r' found looked_up =
    ground (arith, looked_up, fetch_again name r.counters)
