-- ===== src/Tests/Padding.antt =====
-- An implementation of `BytesToAddress` as go-ethereum documents it: the last 20 bytes, with zeros in front of
-- a shorter list.
use rescue_proxy.Prelude.{
  ℕ, zero, suc, Bytes, [], ◌∷◌, ◌++◌, ◌+◌, ◌≡◌, ◌==◌, length, refl, arith, sym, ◌∙◌, nat_eq, subst,
  Bool, true, false, eq_of_beq, ap,
}
use rescue_proxy.Cache.{Address, IsTrue, of_bytes, of_bytes_eq}
use mathlib.Core.List.{append-nil}

abbrev pub rev_onto : Bytes → Bytes → Bytes
rev_onto [] acc = acc
rev_onto (b ∷ bs) acc = rev_onto bs (b ∷ acc)

-- The first `n` bytes of the reversed list, in front of `acc`.
abbrev pub fit_onto : ℕ → Bytes → Bytes → Bytes
fit_onto zero bs acc = acc
fit_onto (suc n) [] acc = fit_onto n [] (0 ∷ acc)
fit_onto (suc n) (b ∷ bs) acc = fit_onto n bs (b ∷ acc)

length-fit_onto : (n : ℕ) (bs acc : Bytes) → length (fit_onto n bs acc) ≡ n + length acc
length-fit_onto zero bs acc = omega arith
length-fit_onto (suc n) [] acc = length-fit_onto n [] (0 ∷ acc) ∙ omega arith
length-fit_onto (suc n) (b ∷ bs) acc = length-fit_onto n bs (b ∷ acc) ∙ omega arith

abbrev pub fitted : Bytes → Bytes
fitted bs = fit_onto 20 (rev_onto bs []) []

has_size : (n : ℕ) → n ≡ 20 → IsTrue (n == 20)
has_size n e = subst (λ m. IsTrue (m == 20)) (sym e) tt

pub size : (bs : Bytes) → IsTrue (length (fitted bs) == 20)
size bs = has_size (length (fitted bs)) (length-fit_onto 20 (rev_onto bs []) [])

abbrev pub to_address : Bytes → Address
to_address bs = of_bytes (fitted bs) (size bs)

fit_onto-rev_onto :
    (xs ys acc : Bytes) (m : ℕ)
    → fit_onto (length xs + m) (rev_onto xs ys) acc ≡ fit_onto m ys (xs ++ acc)
fit_onto-rev_onto [] ys acc m = ap (λ n. fit_onto n ys acc) (omega arith)
fit_onto-rev_onto (x ∷ xs) ys acc m =
    ap (λ n. fit_onto n (rev_onto xs (x ∷ ys)) acc) (omega arith)
    ∙ fit_onto-rev_onto xs (x ∷ ys) acc (suc m)

is_true : (b : Bool) → IsTrue b → b ≡ true
is_true true h = refl
is_true false h = absurd h

-- The bytes of an address are the address's.
pub to_address-bytes : (a : Address) → to_address a.bytes ≡ a
to_address-bytes a = of_bytes_eq (fitted a.bytes) a.bytes (size a.bytes) a.size (
    ap (λ n. fit_onto n (rev_onto a.bytes []) [])
      (sym (eq_of_beq (length a.bytes) 20 (is_true _ a.size)) ∙ omega arith)
    ∙ (fit_onto-rev_onto a.bytes [] [] 0 ∙ append-nil a.bytes))
