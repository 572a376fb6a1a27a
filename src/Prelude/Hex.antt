-- ===== src/Prelude/Hex.antt =====
-- Hexadecimal text, ASCII letter case, and Go's `strings.EqualFold` on a text whose letters are ASCII
-- and neither k nor s: there its Unicode folding and the ASCII one agree.
use rescue_proxy.Prelude.Tests.{ltb, leb, if◌then◌else◌, ◌==◌, nat_eq, list_eq}
use rescue_proxy.Prelude.Lists.{Bytes, All}
use Prim.Native.Nat.{ℕ, ◌+◌, ◌-◌, ◌*◌, ◌/◌, ◌%◌, ◌<◌}
use mathlib.Core.Bool.{Bool, ◌&&◌}
use mathlib.Core.List.{[], ◌∷◌, map}
use mathlib.Core.Logic.{◌≢◌, ◌↔◌}
use mathlib.Core.Option.{Option, none, some}
use mathlib.Core.Path.{◌≡◌, refl}
use native.Mathlib.Omega.{arith}

unfoldable pub to_lower : ℕ → ℕ
to_lower c = if leb b'A' c && leb c b'Z' then c + 32 else c

-- strings.EqualFold
unfoldable pub equal_fold : Bytes → Bytes → Bool
equal_fold s t = map to_lower s == map to_lower t

unfoldable pub hex_digit : ℕ → ℕ
hex_digit n = if ltb n 10 then n + 48 else n + 87

unfoldable pub hex_value : ℕ → Option ℕ
hex_value c =
    if leb b'0' c && leb c b'9'
    then some (c - 48)
    else if leb b'a' c && leb c b'f'
    then some (c - 87)
    else if leb b'A' c && leb c b'F'
    then some (c - 55)
    else none

-- hex.EncodeToString
unfoldable pub hex : Bytes → Bytes
hex [] = []
hex (b ∷ bs) = hex_digit (b / 16) ∷ hex_digit (b % 16) ∷ hex bs

abbrev pub byte_and : Option ℕ → Option ℕ → Option Bytes → Option Bytes
byte_and (some h) (some l) (some bs) = some ((h * 16 + l) ∷ bs)
byte_and _ _ _ = none

-- The bytes that pairs of digits stand for, in either case.
unfoldable pub unhex : Bytes → Option Bytes
unhex [] = some []
unhex (c ∷ []) = none
unhex (c ∷ d ∷ cs) = byte_and (hex_value c) (hex_value d) (unhex cs)

abbrev pub IsByte : ℕ → Type 0
IsByte b = b < 256

byte_and-ne-nil : (h l : Option ℕ) (r : Option Bytes) → byte_and h l r ≢ some []
byte_and-ne-nil (some h) (some l) (some bs) e = cc
byte_and-ne-nil h l r e = cc

byte_and-cons :
    (h l : Option ℕ) (r : Option Bytes) (b : ℕ) (bs : Bytes)
    → byte_and h l r ≡ some (b ∷ bs)
    → (x : ℕ) × (y : ℕ) × (h ≡ some x) × (l ≡ some y) × (r ≡ some bs) × (b ≡ x * 16 + y)
byte_and-cons (some x) (some y) (some bs') b bs e = (x, y, refl, refl, cc, cc)
byte_and-cons h l r b bs e = cc

high_digit : (b h l : ℕ) → b ≡ h * 16 + l → l < 16 → b / 16 ≡ h
high_digit b h l e small = omega arith

low_digit : (b h l : ℕ) → b ≡ h * 16 + l → l < 16 → b % 16 ≡ l
low_digit b h l e small = omega arith

hex_value-lt : (c n : ℕ) → hex_value c ≡ some n → n < 16
unfolding hex_value
hex_value-lt c n h = ground arith

hex_value_of_digit : (c n : ℕ) → n < 16 → to_lower c ≡ hex_digit n → hex_value c ≡ some n
unfolding hex_value to_lower hex_digit
hex_value_of_digit c n h e = ground arith

digit_of_hex_value : (c n : ℕ) → hex_value c ≡ some n → to_lower c ≡ hex_digit n
unfolding hex_value to_lower hex_digit
digit_of_hex_value c n e = ground arith

pub unhex_of_lower : (cs bs : Bytes) → All IsByte bs → map to_lower cs ≡ hex bs → unhex cs ≡ some bs
unfolding unhex hex
unhex_of_lower [] [] _ e = refl
unhex_of_lower [] (b ∷ bs) _ e = cc
unhex_of_lower (c ∷ []) [] _ e = cc
unhex_of_lower (c ∷ []) (b ∷ bs) _ e = ground arith
unhex_of_lower (c ∷ d ∷ cs) [] _ e = cc
unhex_of_lower (c ∷ d ∷ cs) (b ∷ bs) (small, rest) e =
    ground (
      arith,
      hex_value_of_digit c (b / 16),
      hex_value_of_digit d (b % 16),
      unhex_of_lower cs bs rest,
    )

pub lower_of_unhex : (cs bs : Bytes) → unhex cs ≡ some bs → map to_lower cs ≡ hex bs
unfolding unhex hex
lower_of_unhex [] [] e = refl
lower_of_unhex (c ∷ d ∷ cs) (b ∷ bs) e =
    let (h, l, high, low, rest, sum) = byte_and-cons _ _ _ b bs e in
    let small = hex_value-lt d l low in
    cc (
      digit_of_hex_value c (b / 16) (rw (high_digit b h l sum small) high),
      digit_of_hex_value d (b % 16) (rw (low_digit b h l sum small) low),
      lower_of_unhex cs bs rest,
    )
lower_of_unhex (c ∷ d ∷ cs) [] e = absurd (byte_and-ne-nil _ _ _ e)
lower_of_unhex cs bs e = cc

-- A text is some bytes in hexadecimal, up to the case of its letters, exactly if its digits stand for
-- those bytes.
pub unhex_iff : (cs bs : Bytes) → All IsByte bs → (map to_lower cs ≡ hex bs) ↔ (unhex cs ≡ some bs)
unhex_iff cs bs small = (unhex_of_lower cs bs small, lower_of_unhex cs bs)
