-- ===== src/Prelude/Map.antt =====
-- Go's maps (`map`, `sync.Map`) and SQL tables with a primary key, as association lists. A map's
-- iteration order is the order of the list.
use mathlib.Core.List.{List, [], ◌∷◌, map}
use mathlib.Core.Option.{Option, none, some}
use mathlib.Core.Path.{◌≡◌, refl}
use native.Mathlib.Omega.{arith}
use rescue_proxy.Prelude.Tests.{Comparable, ◌==◌, if◌then◌else◌, beq_refl}

abbrev pub Map {ℓ} : Type ℓ → Type ℓ → Type ℓ
Map K V = List (K × V)

module _ {ℓ} {K V : Type ℓ} ⦃c : Comparable K⦄ where
  -- m[k], sync.Map.Load
  unfoldable pub get : K → Map K V → Option V
  get key [] = none
  get key (entry ∷ more) = if entry.0 == key then some entry.1 else get key more

  -- m[k] = v, sync.Map.Store
  unfoldable pub put : K → V → Map K V → Map K V
  put key value [] = (key, value) ∷ []
  put key value (entry ∷ more) =
      if entry.0 == key then (key, value) ∷ more else entry ∷ put key value more

  pub get-put :
      (key other : K) (value : V) (m : Map K V)
      → get other (put key value m) ≡ (if key == other then some value else get other m)
  unfolding get put
  get-put key other value [] = refl
  get-put key other value (entry ∷ more) = ground (
    arith,
    get-put key other value more,
    c.same_iff entry.0 key,
    c.same_iff entry.0 other,
    c.same_iff key other,
  )

  pub get-put_self : (k : K) (v : V) (m : Map K V) → get k (put k v m) ≡ some v
  get-put_self k v m = rw (get-put, beq_refl)

abbrev pub keys {ℓ} : {K V : Type ℓ} → Map K V → List K
keys = map (λ p. p.0)
