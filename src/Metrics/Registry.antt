-- ===== src/Metrics/Registry.antt =====
-- metrics/metrics.go, `(*MetricsMap).value`, which finds a metric or creates it. Its two critical sections,
-- under the read lock and under the full lock, are a step each: `sync.RWMutex` lets no other section that
-- writes run at the same time. A metric is the number of metrics that were created before it.
pub mod Unique
use rescue_proxy.Cache.{address_eq}
use rescue_proxy.Prelude.{
  ℕ, Option, none, some, List, [], ◌∷◌, String, length, ◌==◌, nat_eq, string_eq, if◌then◌else◌,
}
use rescue_proxy.Prelude.Map
use rescue_proxy.Prelude.Map.{Map}

abbrev pub Metric : Type 0
Metric = ℕ

-- `made` are the names that `initializor` was called for, the last one first.
pub record MetricsMap : Type 0 where
  pub m : Map String Metric
  pub made : List String

-- Where a caller of `value` stands: before the first section, between the two, and at its return.
pub data Caller : Type 0 where
  calling : String → Caller
  missed : String → Caller
  returned : String → Metric → Caller

-- Between RLock and RUnlock.
abbrev pub read_section : String → Option Metric → MetricsMap → Caller × MetricsMap
read_section name none r = (missed name, r)
read_section name (some val) r = (returned name val, r)

-- Between Lock and Unlock.
abbrev pub write_section : String → Option Metric → MetricsMap → Caller × MetricsMap
write_section name (some val) r = (returned name val, r)
write_section name none r = (
  returned name (length r.made),
  record { m = Map.put name (length r.made) r.m; made = name ∷ r.made },
)

-- The next section of a call of `value`.
unfoldable pub value : Caller → MetricsMap → Caller × MetricsMap
value (calling name) r = read_section name (Map.get name r.m) r
value (missed name) r = write_section name (Map.get name r.m) r
value (returned name val) r = (returned name val, r)

-- Any number of callers, and the order in which they take their sections.
pub record System : Type 0 where
  pub registry : MetricsMap
  pub callers : ℕ → Caller

abbrev pub proceed : ℕ → Caller × MetricsMap → System → System
proceed t (pc, r) s = record { registry = r; callers = λ u. if t == u then pc else s.callers u }

unfoldable pub run : List ℕ → System → System
run [] s = s
run (t ∷ schedule) s = run schedule (proceed t (value (s.callers t) s.registry) s)

abbrev pub start : (ℕ → String) → System
start names = record { registry = record { m = []; made = [] }; callers = λ t. calling (names t) }
