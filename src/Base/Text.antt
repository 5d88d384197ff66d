-- ===== src/Base/Text.antt =====
-- Go strings as lists of bytes, and the printing of numbers (strconv, fmt).
use signers.Base.Tests.{ltb, ◌==◌, if◌then◌else◌}
use Prim.Native.Nat.{ℕ, zero, suc, ◌+◌, ◌-◌, ◌/◌, ◌%◌}
use Prim.Native.Char.{code}
use Prim.Native.String.{String}
use mathlib.Core.Path.{◌≡◌, refl, ap}
use mathlib.Core.Bool.{Bool, true, false}
use mathlib.Core.List.{List, [], ◌∷◌}
use native.Mathlib.Omega.{arith}

abbrev pub Text : Type 0
Text = List ℕ

-- The bytes of an ASCII literal.
abbrev pub codes : String → Text
codes String.[] = []
codes (String.◌∷◌ c s) = code c ∷ codes s

-- Equality of strings and of byte slices.
unfoldable pub text_eq : Text → Text → Bool
text_eq [] [] = true
text_eq (a ∷ s) (b ∷ t) = if a == b then text_eq s t else false
text_eq _ _ = false

pub text_eq-eq : (s t : Text) → text_eq s t ≡ true → s ≡ t
unfolding text_eq
text_eq-eq [] [] h = refl
text_eq-eq [] (b ∷ t) h = ground arith
text_eq-eq (a ∷ s) [] h = ground arith
text_eq-eq (a ∷ s) (b ∷ t) h = ground (arith, text_eq-eq s t)

pub text_eq_refl : (s : Text) → text_eq s s ≡ true
unfolding text_eq
text_eq_refl [] = refl
text_eq_refl (a ∷ s) = ground (arith, text_eq_refl s)

-- The character of a digit; `upper` is 65 for A to F and 97 for a to f.
unfoldable pub digit : ℕ → ℕ → ℕ
digit upper d = if ltb d 10 then 48 + d else upper + (d - 10)

-- The digits of `n` in front of `out`, for n below 2 ^ fuel.
unfoldable pub digits : ℕ → ℕ → ℕ → ℕ → Text → Text
unfolding digit
digits base upper zero n out = out
digits base upper (suc f) n out =
    let rest = digits base upper f (n / base) (digit upper (n % base) ∷ out) in
    if n == 0 then out else rest

-- Printing of an unsigned number: 64 rounds cover every 64-bit value in a base of 2 or more.
unfoldable pub print : ℕ → ℕ → ℕ → Text
unfolding digits
print base upper n = if n == 0 then 48 ∷ [] else digits base upper 64 n []

pub print-digits :
    (base upper n : ℕ) → (n == 0) ≡ false → print base upper n ≡ digits base upper 64 n []
unfolding print
print-digits base upper n more = ap (λ b. if b then 48 ∷ [] else digits base upper 64 n []) more

pub print-zero : (base upper n : ℕ) → (n == 0) ≡ true → print base upper n ≡ 48 ∷ []
unfolding print
print-zero base upper n done = ap (λ b. if b then 48 ∷ [] else digits base upper 64 n []) done

-- strconv.Itoa and "%v" of a number that is not negative.
abbrev pub decimal : ℕ → Text
decimal = print 10 97
