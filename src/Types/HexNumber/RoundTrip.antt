-- ===== src/Types/HexNumber/RoundTrip.antt =====
-- HexNumber (types/eth.go): what is written is read back.
use signers.Base.{
  ℕ, zero, suc, ◌/◌, ◌%◌, ◌^◌, ◌<◌, ◌≡◌, refl, sym, ap, ◌∙◌, false, [], ◌∷◌, some, arith, leb, ◌==◌,
  Bool-cases, inl, inr,
}
use signers.Base.Text.{Text, digit, digits, print, print-digits, print-zero}
use signers.Base.Exec.{ok}
use signers.Types.HexNumber.{
  marshal_number, letter_value, next_value, add_digit, parse_digits, split_base, parse_uint,
  unmarshal_number,
}

letter_value-digit : (d : ℕ) → d < 16 → letter_value (digit 97 d) ≡ some d
unfolding digit letter_value
letter_value-digit d h = ground arith

digit-ne-underscore : (d : ℕ) → d < 16 → (digit 97 d == 95) ≡ false
unfolding digit
digit-ne-underscore d h = ground arith

next_value-fits : (n : ℕ) → n < 2 ^ 64 → next_value 16 (n / 16) (n % 16) ≡ some n
unfolding next_value
next_value-fits n h = ground arith

digit_below : (n : ℕ) → leb 16 (n % 16) ≡ false
digit_below n = ground arith

add_digit-last : (n : ℕ) → n < 2 ^ 64 → add_digit 16 (n / 16) (digit 97 (n % 16)) ≡ some n
unfolding add_digit
add_digit-last n h =
    rw (letter_value-digit (n % 16) (omega arith), add_digit)
      (rw (digit_below n) (next_value-fits n h))

shorter : (f n : ℕ) → n < 2 ^ suc f → n / 16 < 2 ^ f
shorter f n h = omega (arith, h)

one_digit :
    (n : ℕ) (out : Text)
    → n < 2 ^ 64
    → parse_digits 16 (digit 97 (n % 16) ∷ out) (n / 16) false ≡ parse_digits 16 out n false
unfolding parse_digits
one_digit n out low =
    rw (digit-ne-underscore (n % 16) (omega arith)) (rw (add_digit-last n low) refl)

-- Reading the digits of n goes on with n and what follows them.
parse_digits-digits :
    (f n : ℕ) (out : Text)
    → n < 2 ^ f
    → n < 2 ^ 64
    → parse_digits 16 (digits 16 97 f n out) 0 false ≡ parse_digits 16 out n false
unfolding digits
parse_digits-digits zero n out h low = ap (λ m. parse_digits 16 out m false) (omega (arith, h))
parse_digits-digits (suc f) n out h low = elim (Bool-cases (n == 0)) [
  | inl done ↦ rw done (ap (λ m. parse_digits 16 out m false) (ground arith))
  | inr more ↦ rw more (
      parse_digits-digits f (n / 16) (digit 97 (n % 16) ∷ out) (shorter f n h) (omega arith)
      ∙ one_digit n out low)
]

-- A printed number has a digit.
digits_cons : (f n c : ℕ) (out : Text) → (d : ℕ) × (s : Text) × (digits 16 97 f n (c ∷ out) ≡ d ∷ s)
unfolding digits
digits_cons zero n c out = (c, out, refl)
digits_cons (suc f) n c out = elim (Bool-cases (n == 0)) [
  | inl done ↦ (c, out, rw done refl)
  | inr more ↦
      let (d, s, cons) = digits_cons f (n / 16) (digit 97 (n % 16)) (c ∷ out) in
      (d, s, rw more cons)
]

digits_cons_more :
    (f n : ℕ) → (n == 0) ≡ false → (d : ℕ) × (s : Text) × (digits 16 97 (suc f) n [] ≡ d ∷ s)
unfolding digits
digits_cons_more f n more =
    let (d, s, cons) = digits_cons f (n / 16) (digit 97 (n % 16)) [] in (d, s, rw more cons)

print_cons : (n : ℕ) → (c : ℕ) × (s : Text) × (print 16 97 n ≡ c ∷ s)
print_cons n = elim (Bool-cases (n == 0)) [
  | inl done ↦ (48, [], print-zero 16 97 n done)
  | inr more ↦
      let (d, s, cons) = digits_cons_more 63 n more in (d, s, print-digits 16 97 n more ∙ cons)
]

parse_zero : parse_digits 16 (48 ∷ []) 0 false ≡ ok (0, false)
unfolding parse_digits add_digit next_value letter_value
parse_zero = refl

parse_end : (n : ℕ) → parse_digits 16 [] n false ≡ ok (n, false)
unfolding parse_digits
parse_end n = refl

parse_digits-print : (n : ℕ) → n < 2 ^ 64 → parse_digits 16 (print 16 97 n) 0 false ≡ ok (n, false)
parse_digits-print n low = elim (Bool-cases (n == 0)) [
  | inl done ↦
      let same : 0 ≡ n = ground arith in
      ap (λ t. parse_digits 16 t 0 false) (print-zero 16 97 n done)
      ∙ parse_zero
      ∙ ap (λ m. ok (m, false)) same
  | inr more ↦
      ap (λ t. parse_digits 16 t 0 false) (print-digits 16 97 n more)
      ∙ parse_digits-digits 64 n [] low low
      ∙ parse_end n
]

parse_uint-hex :
    (c : ℕ) (s : Text) (n : ℕ)
    → parse_digits 16 (c ∷ s) 0 false ≡ ok (n, false)
    → parse_uint (48 ∷ 120 ∷ c ∷ s) ≡ ok n
unfolding parse_uint split_base
parse_uint-hex c s n figures = rw figures refl

-- A number below 2^64 that MarshalJSON writes is read back by UnmarshalJSON as the same number.
pub unmarshal-marshal : (n : ℕ) → n < 2 ^ 64 → unmarshal_number (marshal_number n) ≡ ok n
unfolding unmarshal_number marshal_number
unmarshal-marshal n low =
    let (c, s, cons) = print_cons n in
    let figures = ap (λ t. parse_digits 16 t 0 false) (sym cons) ∙ parse_digits-print n low in
    rw cons (parse_uint-hex c s n figures)
