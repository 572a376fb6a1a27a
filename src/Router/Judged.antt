-- ===== src/Router/Judged.antt =====
-- Loops of checks that keep the cache's contents: the first item that is refused decides.
use rescue_proxy.Prelude.{
  true, Option, none, some, List, [], ◌∷◌, ◌≡◌, refl, arith, Option-cases, inl, inr, All,
}
use rescue_proxy.Prelude.Exec.{Exec, Result, ok, err}
use rescue_proxy.Cache.{address_eq, Cache, CacheLaws, Contents}
use rescue_proxy.Router.World.{World, for_each}

abbrev pub refused_by : {A E : Type 0} → A → Option E → Result E A
refused_by a none = ok a
refused_by a (some e) = err e

abbrev pub or_else : {E : Type 0} → Option E → Option E → Option E
or_else none later = later
or_else (some e) later = some e

-- The refusal of the first item that has one.
unfoldable pub first_refusal : {A E : Type 0} → (A → Option E) → List A → Option E
first_refusal judge [] = none
first_refusal judge (x ∷ xs) = or_else (judge x) (first_refusal judge xs)

module _ {S B E : Type 0} {c : Cache S} (l : CacheLaws c) where
  -- The result, and a cache that is healthy still and holds what it held.
  pub record Judged {A : Type 0} (w : World S B) (r : Result E A) (after : Result E A × World S B)
      : Type 0 where
    pub result : after.0 ≡ r
    pub contents : l.contents after.1.el.cache ≡ l.contents w.el.cache
    pub healthy : l.healthy after.1.el.cache ≡ true

  -- If the loop's body decides each item by the contents alone, the loop decides by the first refusal.
  pub for_each-Judged :
      {A : Type 0} (body : A → Exec (World S B) E (Unit {0})) (judge : Contents → A → Option E)
      → ((x : A) (w : World S B)
          → l.healthy w.el.cache ≡ true
          → Judged w (refused_by tt (judge (l.contents w.el.cache) x)) (body x w))
      → (xs : List A) (w : World S B) → l.healthy w.el.cache ≡ true
      → Judged w
          (refused_by tt (first_refusal (judge (l.contents w.el.cache)) xs))
          (for_each body xs w)
  unfolding for_each first_refusal
  for_each-Judged body judge step [] w h = record { result = refl; contents = refl; healthy = h }
  for_each-Judged body judge step (x ∷ xs) w h =
      let here = step x w h in
      let w' = (body x w).1 in
      let later = for_each-Judged body judge step xs w' here.healthy in
      elim (Option-cases (judge (l.contents w.el.cache) x)) [
        | inl fine ↦ ground arith
        | inr (e, bad) ↦ ground arith
      ]

pub first_refusal-none :
    {A E : Type 0} (judge : A → Option E) (P : A → Type 0)
    → ((x : A) → P x → judge x ≡ none)
    → (xs : List A) → All P xs
    → first_refusal judge xs ≡ none
unfolding first_refusal
first_refusal-none judge P fine [] _ = refl
first_refusal-none judge P fine (x ∷ xs) (px, pxs) =
    rw (fine x px) (first_refusal-none judge P fine xs pxs)
