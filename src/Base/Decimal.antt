-- ===== src/Base/Decimal.antt =====
-- A number printed in base 10, read back.
use Prim.Native.Nat.{ℕ, zero, suc, ◌+◌, ◌-◌, ◌*◌, ◌/◌, ◌%◌, ◌^◌, ◌<◌}
use mathlib.Core.Path.{◌≡◌, sym, ap, ◌∙◌}
use mathlib.Core.List.{[], ◌∷◌}
use native.Mathlib.Omega.{arith}
use signers.Base.Text.{Text, digit, digits, print, decimal}

read_decimal : Text → ℕ → ℕ
read_decimal [] n = n
read_decimal (c ∷ s) n = read_decimal s (10 * n + (c - 48))

last_digit : (d : ℕ) → d < 10 → digit 97 d - 48 ≡ d
unfolding digit
last_digit d h = ground arith

shorter : (f n : ℕ) → n < 2 ^ suc f → n / 10 < 2 ^ f
shorter f n h = omega (arith, h)

read_decimal-digits :
    (f n : ℕ) (out : Text) → n < 2 ^ f → read_decimal (digits 10 97 f n out) 0 ≡ read_decimal out n
unfolding digits read_decimal
read_decimal-digits zero n out h = ap (read_decimal out) (omega (arith, h))
read_decimal-digits (suc f) n out h = ground (
  arith,
  read_decimal-digits f (n / 10) (digit 97 (n % 10) ∷ out) (shorter f n h),
  last_digit (n % 10) (omega arith),
)

decimal-read : (n : ℕ) → n < 2 ^ 64 → read_decimal (decimal n) 0 ≡ n
unfolding print digit read_decimal
decimal-read n h = ground (arith, read_decimal-digits 64 n [] h)

-- Two numbers with the same print are the same.
pub decimal-injective : (m n : ℕ) → m < 2 ^ 64 → n < 2 ^ 64 → decimal m ≡ decimal n → m ≡ n
decimal-injective m n h k same =
    sym (decimal-read m h) ∙ ap (λ s. read_decimal s 0) same ∙ decimal-read n k
