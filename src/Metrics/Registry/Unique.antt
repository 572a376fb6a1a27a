-- ===== src/Metrics/Registry/Unique.antt =====
-- metrics/metrics.go: callers that race for a metric create it once and share it.
use rescue_proxy.Cache.{address_eq}
use rescue_proxy.Prelude.{
  ℕ, Bool, false, none, some, List, [], ◌∷◌, String, length, ◌≡◌, refl, arith, ◌==◌, ◌||◌, nat_eq,
  string_eq, Option-cases, Bool-cases, inl, inr, eq_of_beq,
}
use rescue_proxy.Prelude.Map
use rescue_proxy.Prelude.Map.{Map}
use rescue_proxy.Metrics.Registry.{
  Metric, MetricsMap, Caller, calling, missed, returned, value, System, proceed, run, start,
}

unfoldable pub is_made : String → List String → Bool
is_made name [] = false
is_made name (n ∷ ns) = n == name || is_made name ns

abbrev pub Distinct : List String → Type 0
Distinct [] = Unit
Distinct (n ∷ ns) = (is_made n ns ≡ false) × Distinct ns

-- A name that was made is in the map, and none was made twice.
pub record IsRegistry (r : MetricsMap) : Type 0 where
  pub known : (name : String) → Map.get name r.m ≡ none → is_made name r.made ≡ false
  pub distinct : Distinct r.made

-- What was returned is what the map holds.
abbrev pub IsHeld : MetricsMap → Caller → Type 0
IsHeld r (calling name) = Unit
IsHeld r (missed name) = Unit
IsHeld r (returned name val) = Map.get name r.m ≡ some val

-- The map has grown, and keeps what it held.
abbrev pub Grows : MetricsMap → MetricsMap → Type 0
Grows r r' =
    (name : String) (val : Metric) → Map.get name r.m ≡ some val → Map.get name r'.m ≡ some val

record Stepped (pc : Caller) (r : MetricsMap) (after : Caller × MetricsMap) : Type 0 where
  registry : IsRegistry after.1
  grows : Grows r after.1
  held : IsHeld after.1 after.0

created :
    (name : String) (r : MetricsMap)
    → IsRegistry r
    → Map.get name r.m ≡ none
    → IsRegistry (record { m = Map.put name (length r.made) r.m; made = name ∷ r.made })
      × Grows r (record { m = Map.put name (length r.made) r.m; made = name ∷ r.made })
unfolding is_made
created name r ok_r new = (
  record {
    known = λ other h. elim (Bool-cases (name == other)) [
      | inl same ↦ absurd (ground (arith, Map.get-put name other (length r.made) r.m))
      | inr differs ↦
          rw differs (ok_r.known other (ground (arith, Map.get-put name other (length r.made) r.m)))
    ];
    distinct = (ok_r.known name new, ok_r.distinct);
  },
  λ other val h. elim (Bool-cases (name == other)) [
    | inl same ↦ let e : name ≡ other = eq_of_beq name other same in absurd (ground arith)
    | inr differs ↦ ground (arith, Map.get-put name other (length r.made) r.m)
  ],
)

value-Stepped :
    (pc : Caller) (r : MetricsMap) → IsRegistry r → IsHeld r pc → Stepped pc r (value pc r)
unfolding value
value-Stepped (returned name val) r ok_r held = record {
  registry = ok_r;
  grows = λ n v h. h;
  held = held;
}
value-Stepped (calling name) r ok_r held = elim (Option-cases (Map.get name r.m)) [
  | inl new ↦ rw new (record { registry = ok_r; grows = λ n v h. h; held = tt })
  | inr (val, found) ↦ rw found (record { registry = ok_r; grows = λ n v h. h; held = found })
]
value-Stepped (missed name) r ok_r held = elim (Option-cases (Map.get name r.m)) [
  | inl new ↦
      let (good, grows) = created name r ok_r new in
      rw new (record {
        registry = good;
        grows = grows;
        held = Map.get-put_self name (length r.made) r.m;
      })
  | inr (val, found) ↦ rw found (record { registry = ok_r; grows = λ n v h. h; held = found })
]

record IsConsistent (s : System) : Type 0 where
  registry : IsRegistry s.registry
  held : (t : ℕ) → IsHeld s.registry (s.callers t)

IsHeld-Grows : (r r' : MetricsMap) (pc : Caller) → Grows r r' → IsHeld r pc → IsHeld r' pc
IsHeld-Grows r r' (calling name) g h = tt
IsHeld-Grows r r' (missed name) g h = tt
IsHeld-Grows r r' (returned name val) g h = g name val h

run-IsConsistent : (schedule : List ℕ) (s : System) → IsConsistent s → IsConsistent (run schedule s)
unfolding run
run-IsConsistent [] s good = good
run-IsConsistent (t ∷ schedule) s good =
    let after = value (s.callers t) s.registry in
    let step = value-Stepped (s.callers t) s.registry good.registry (good.held t) in
    run-IsConsistent schedule (proceed t after s) (record {
      registry = step.registry;
      held = λ u. elim (Bool-cases (t == u)) [
        | inl same ↦ rw same step.held
        | inr differs ↦
            rw differs (IsHeld-Grows s.registry after.1 (s.callers u) step.grows (good.held u))
      ];
    })

start-IsConsistent : (names : ℕ → String) → IsConsistent (start names)
unfolding is_made
start-IsConsistent names = record {
  registry = record { known = λ name h. refl; distinct = tt };
  held = λ t. tt;
}

-- Any number of callers ask an empty registry for metrics, and take their critical sections in any
-- order: no metric is created twice, and two callers that have returned for the same name hold the
-- same metric.
pub value_unique :
    (names : ℕ → String) (schedule : List ℕ)
    → Distinct (run schedule (start names)).registry.made
      × ((t u : ℕ) (name : String) (val val' : Metric)
          → (run schedule (start names)).callers t ≡ returned name val
          → (run schedule (start names)).callers u ≡ returned name val'
          → val ≡ val')
value_unique names schedule =
    let good = run-IsConsistent schedule (start names) (start-IsConsistent names) in
    (
      good.registry.distinct,
      λ t u name val val' h h'.
          let first = rw h at (good.held t) in let second = rw h' at (good.held u) in ground arith,
    )

-- Whatever others have added to the registry between the two sections of a call, as long as each
-- name keeps its metric: the call returns after the second section, with the metric that the
-- registry then holds for the name.
pub value_returns :
    (name : String) (r r' : MetricsMap)
    → let first = value (calling name) r in
      let after = value first.0 r' in
      Grows first.1 r'
      → (val : Metric) × (after.0 ≡ returned name val) × (Map.get name after.1.m ≡ some val)
unfolding value
value_returns name r r' grown = elim (Option-cases (Map.get name r.m)) [
  | inr (val, found) ↦ (val, rw found refl, rw found (rw found at grown name val found))
  | inl new ↦ elim (Option-cases (Map.get name r'.m)) [
    | inl still ↦ (
      length r'.made,
      rw (new, still) refl,
      rw (new, still) (Map.get-put_self name (length r'.made) r'.m),
    )
    | inr (val, found) ↦ (val, rw (new, found) refl, rw (new, found) found)
  ]
]
