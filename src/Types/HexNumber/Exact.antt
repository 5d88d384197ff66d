-- ===== src/Types/HexNumber/Exact.antt =====
-- HexNumber (types/eth.go): the range of a number in hexadecimal digits.
use signers.Base.{
  ℕ, ◌+◌, ◌*◌, ◌^◌, ◌≤◌, ◌<◌, ◌≡◌, refl, sym, true, false, [], ◌∷◌, Option, none, some, arith, ltb,
  leb, ◌==◌, if◌then◌else◌, All, Bool-cases, inl, inr,
}
use signers.Base.Text.{Text}
use signers.Base.Exec.{Result, ok, err, failed}
use signers.Types.HexNumber.{
  letter_value, next_value, add_digit, parse_digits, split_base, checked, parse_uint,
  unmarshal_number,
}

-- The number that the digits after n make, without any bound; none for a text that has another
-- character.
abbrev digits_after : ℕ → Option ℕ → (ℕ → Option ℕ) → Option ℕ
digits_after n none rest = none
digits_after n (some d) rest = if ltb d 16 then rest (n * 16 + d) else none

unfoldable pub exact : Text → ℕ → Option ℕ
exact [] n = some n
exact (c ∷ s) n = digits_after n (letter_value c) (λ m. exact s m)

-- A uint64, or an error.
abbrev pub if_fits : {A : Type 0} → (ℕ → A) → Option ℕ → Result A
if_fits f none = err failed
if_fits f (some v) = if ltb v (2 ^ 64) then ok (f v) else err failed

abbrev pub NoUnderscore : Text → Type 0
NoUnderscore s = All (λ c. (c == 95) ≡ false) s

too_large :
    {A : Type 0} (f : ℕ → A) (s : Text) (n : ℕ) → 2 ^ 64 ≤ n → if_fits f (exact s n) ≡ err failed
unfolding exact
too_large f [] n large = ground arith
too_large f (c ∷ s) n large = by_digit (λ m. too_large f s m) (letter_value c)
  where
    by_digit :
        ((m : ℕ) → 2 ^ 64 ≤ m → if_fits f (exact s m) ≡ err failed)
        → (o : Option ℕ) → if_fits f (digits_after n o (λ m. exact s m)) ≡ err failed
    by_digit larger none = refl
    by_digit larger (some d) = elim (Bool-cases (ltb d 16)) [
      | inl figure ↦ rw figure (larger (n * 16 + d) (omega arith))
      | inr other ↦ rw other refl
    ]

next_value-exact :
    (n d : ℕ)
    → n < 2 ^ 64
    → d < 16
    → next_value 16 n d ≡ (if ltb (n * 16 + d) (2 ^ 64) then some (n * 16 + d) else none)
unfolding next_value
next_value-exact n d low small = ground arith

parse_digits-exact :
    (s : Text) (n : ℕ)
    → NoUnderscore s
    → n < 2 ^ 64
    → parse_digits 16 s n false ≡ if_fits (λ v. (v, false)) (exact s n)
unfolding parse_digits exact add_digit
parse_digits-exact [] n plain low = ground arith
parse_digits-exact (c ∷ s) n (here, plain) low =
    rw here (by_digit (λ m. parse_digits-exact s m plain) (letter_value c) refl)
  where
    by_digit :
        ((m : ℕ) → m < 2 ^ 64 → parse_digits 16 s m false ≡ if_fits (λ v. (v, false)) (exact s m))
        → (o : Option ℕ) → letter_value c ≡ o
        → (elim (add_digit 16 n c) [
          | none ↦ Result.err failed
          | some m ↦ parse_digits 16 s m false
        ])
          ≡ if_fits (λ v. (v, false)) (digits_after n o (λ m. exact s m))
    by_digit rest none e = rw e refl
    by_digit rest (some d) e = elim (Bool-cases (ltb d 16)) [
      | inr other ↦
          (let refused : leb 16 d ≡ true = ground arith in rw e (rw refused (rw other refl)))
      | inl figure ↦
          (let taken : leb 16 d ≡ false = ground arith in
            rw e (
              rw taken (
                rw figure (
                  rw (next_value-exact n d low (ground arith))
                    (elim (Bool-cases (ltb (n * 16 + d) (2 ^ 64))) [
                      | inl fits ↦ rw fits (rest (n * 16 + d) (ground arith))
                      | inr large ↦
                          rw large (sym (too_large (λ v. (v, false)) s (n * 16 + d) (ground arith)))
                    ])))))
    ]

checked-fits :
    (text : Text) (o : Option ℕ) → checked text (if_fits (λ v. (v, false)) o) ≡ if_fits (λ v. v) o
unfolding checked
checked-fits text none = refl
checked-fits text (some v) = elim (Bool-cases (ltb v (2 ^ 64))) [
  | inl fits ↦ rw fits refl
  | inr large ↦ rw large refl
]

-- A text of 0x and one or more characters, without underscores, is read by UnmarshalJSON as the
-- number that its digits make where this is below 2^64; a larger number, however long, and a
-- character that is no hexadecimal digit are errors.
pub unmarshal_number-exact :
    (c : ℕ) (s : Text)
    → NoUnderscore (c ∷ s)
    → unmarshal_number (48 ∷ 120 ∷ c ∷ s) ≡ if_fits (λ v. v) (exact (c ∷ s) 0)
unfolding unmarshal_number parse_uint split_base
unmarshal_number-exact c s plain =
    rw (parse_digits-exact (c ∷ s) 0 plain (omega arith))
      (checked-fits (48 ∷ 120 ∷ c ∷ s) (exact (c ∷ s) 0))
