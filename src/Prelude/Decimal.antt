-- ===== src/Prelude/Decimal.antt =====
-- Go's `strconv.ParseUint(s, 10, 64)` and `strconv.FormatUint(n, 10)`.
use rescue_proxy.Prelude.Tests.{ltb, leb, if◌then◌else◌, Bool-cases, ltb→lt, lt→ltb}
use rescue_proxy.Prelude.Lists.{Bytes}
use Prim.Native.Nat.{ℕ, zero, suc, ◌+◌, ◌-◌, ◌*◌, ◌/◌, ◌%◌, ◌^◌, ◌<◌}
use mathlib.Core.Bool.{Bool, true, false, ◌&&◌}
use mathlib.Core.List.{[], ◌∷◌, ◌++◌, append_assoc, append-nil}
use mathlib.Core.Logic.{◌≢◌, inl, inr}
use mathlib.Core.Path.{◌≡◌, refl, sym, ap, ◌∙◌}
use native.Mathlib.Nat.{pow-suc}
use native.Mathlib.Omega.{arith}

abbrev pub max_uint64 : ℕ
max_uint64 = 2 ^ 64 - 1

-- The value, and whether there is an error: with a bad digit the value is 0, past the range it is the
-- largest one, whatever follows.
unfoldable pub parse_from : ℕ → Bytes → ℕ × Bool
parse_from n [] = (n, false)
parse_from n (c ∷ cs) =
    let rest = parse_from (n * 10 + (c - 48)) cs in
    if leb 48 c && leb c 57
    then (if ltb max_uint64 (n * 10 + (c - 48)) then (max_uint64, true) else rest)
    else (0, true)

unfoldable pub parse_uint : Bytes → ℕ × Bool
parse_uint [] = (0, true)
parse_uint (c ∷ cs) = parse_from 0 (c ∷ cs)

-- At most `fuel` digits.
unfoldable pub format_fuel : ℕ → ℕ → Bytes
format_fuel zero n = []
format_fuel (suc fuel) n =
    let front = format_fuel fuel (n / 10) in
    if ltb n 10 then (n + 48) ∷ [] else front ++ (n % 10 + 48) ∷ []

-- Twenty digits are enough for 64 bits.
unfoldable pub format_uint : ℕ → Bytes
format_uint n = format_fuel 20 n

append-ne-nil : (xs : Bytes) (x : ℕ) → xs ++ x ∷ [] ≢ []
append-ne-nil [] x e = cc
append-ne-nil (y ∷ xs) x e = cc

parse_digit :
    (n d k : ℕ) (rest : Bytes)
    → d < 10
    → k < 2 ^ 64
    → k ≡ n * 10 + d
    → parse_from n ((d + 48) ∷ rest) ≡ parse_from k rest
unfolding parse_from
parse_digit n d k rest small fits e = ground arith

parse_from-format_fuel :
    (fuel n : ℕ) (rest : Bytes)
    → n < 10 ^ fuel
    → n < 2 ^ 64
    → 0 < fuel
    → parse_from 0 (format_fuel fuel n ++ rest) ≡ parse_from n rest
unfolding format_fuel
parse_from-format_fuel zero n rest bound fits h = absurd (omega arith)
parse_from-format_fuel (suc zero) n rest bound fits h =
    let small : n < 10 = omega arith in
    rw (lt→ltb n 10 small) (parse_digit 0 n n rest small fits (omega arith))
parse_from-format_fuel (suc (suc fuel)) n rest bound fits h = elim (Bool-cases (ltb n 10)) [
  | inl one ↦ rw one (parse_digit 0 n n rest (ltb→lt n 10 one) fits (omega arith))
  | inr more ↦
      let last = n % 10 + 48 in
      rw (more, append_assoc)
        (parse_from-format_fuel (suc fuel) (n / 10) (last ∷ rest)
            (omega (arith, pow-suc 10 (suc fuel))) (omega arith) (omega arith)
          ∙ parse_digit (n / 10) (n % 10) n rest (omega arith) fits (omega arith))
]

parse_uint-eq-parse_from : (s : Bytes) → s ≢ [] → parse_uint s ≡ parse_from 0 s
unfolding parse_uint
parse_uint-eq-parse_from [] h = absurd (h refl)
parse_uint-eq-parse_from (c ∷ cs) h = refl

format_fuel-ne-nil : (fuel n : ℕ) → format_fuel (suc fuel) n ≢ []
unfolding format_fuel
format_fuel-ne-nil fuel n e = elim (Bool-cases (ltb n 10)) [
  | inl one ↦ ground arith
  | inr more ↦ append-ne-nil (format_fuel fuel (n / 10)) (n % 10 + 48) (rw more at e)
]

-- Every 64-bit number is read back from its text.
pub parse_uint-format_uint : (n : ℕ) → n < 2 ^ 64 → parse_uint (format_uint n) ≡ (n, false)
unfolding format_uint
parse_uint-format_uint n fits =
    parse_uint-eq-parse_from (format_fuel 20 n) (format_fuel-ne-nil 19 n)
    ∙ (ap (parse_from 0) (sym (append-nil _))
        ∙ (parse_from-format_fuel 20 n [] (omega arith) fits (omega arith)
            ∙ unfold parse_from in refl))
