-- ===== src/Types/HexNumber.antt =====
-- types/eth.go: HexNumber, with strconv.ParseUint(s, 0, 64) as UnmarshalJSON calls it.
pub mod RoundTrip
pub mod Exact
use signers.Base.{
  ℕ, ◌+◌, ◌-◌, ◌*◌, ◌/◌, ◌%◌, ◌^◌, Bool, true, false, ◌&&◌, ◌||◌, List, [], ◌∷◌, ◌++◌, Option, none,
  some, ltb, leb, ◌==◌, if◌then◌else◌,
}
use signers.Base.Text.{Text, codes, print}
use signers.Base.Exec.{Result, ok, err, failed}

-- MarshalJSON, before json.Marshal of the text.
unfoldable pub marshal_number : ℕ → Text
marshal_number n = codes "0x" ++ print 16 97 n

-- c | ('x' - 'X'), for a byte.
abbrev lower : ℕ → ℕ
lower c = if c / 32 % 2 == 1 then c else c + 32

-- The value of a digit or letter.
unfoldable pub letter_value : ℕ → Option ℕ
letter_value c =
    if leb 48 c && leb c 57
    then some (c - 48)
    else if leb 97 (lower c) && leb (lower c) 122
    then some (lower c - 87)
    else none

-- `n * base + d`, or a range error: `n` is at the cutoff, or the sum wraps.
unfoldable pub next_value : ℕ → ℕ → ℕ → Option ℕ
next_value base n d =
    if leb ((2 ^ 64 - 1) / base + 1) n
    then none
    else if ltb ((n * base + d) % 2 ^ 64) (n * base)
    then none
    else some ((n * base + d) % 2 ^ 64)

-- One character of the number: a syntax error, a range error or the next value.
unfoldable pub add_digit : ℕ → ℕ → ℕ → Option ℕ
add_digit base n c = elim (letter_value c) [
  | none ↦ none
  | some d ↦ if leb base d then none else next_value base n d
]

-- The loop over the characters; the flag tells whether an underscore was seen.
unfoldable pub parse_digits : ℕ → Text → ℕ → Bool → Result (ℕ × Bool)
parse_digits base [] n underscores = ok (n, underscores)
parse_digits base (c ∷ s) n underscores =
    if c == 95 then (let rest = parse_digits base s n true in rest) else elim (add_digit base n c) [
      | none ↦ err failed
      | some m ↦ parse_digits base s m underscores
    ]

-- What underscoreOK has seen last.
pub data Saw : Type 0 where
  start : Saw
  figure : Saw
  underscore : Saw
  other : Saw

figure_ok : Bool → ℕ → Bool
figure_ok is_hex c = (leb 48 c && leb c 57) || (is_hex && (leb 97 (lower c) && leb (lower c) 102))

-- An underscore stands between digits, or after the prefix.
underscores_from : Bool → Saw → Text → Bool
unfolding figure_ok
underscores_from is_hex underscore [] = false
underscores_from is_hex start [] = true
underscores_from is_hex figure [] = true
underscores_from is_hex other [] = true
underscores_from is_hex saw (c ∷ s) =
    if figure_ok is_hex c
    then underscores_from is_hex figure s
    else if c == 95
    then elim saw [ figure ↦ underscores_from is_hex underscore s | _ ↦ false ]
    else elim saw [ underscore ↦ false | _ ↦ underscores_from is_hex other s ]

-- The base of a text that starts with 0, where at least one character follows the letter.
abbrev base_of_letter : ℕ → Option ℕ
base_of_letter c =
    if lower c == 98
    then some 2
    else if lower c == 111
    then some 8
    else if lower c == 120
    then some 16
    else none

-- underscoreOK, without a sign: the digits have refused one.
unfoldable pub underscore_ok : Text → Bool
unfolding underscores_from
underscore_ok (a ∷ b ∷ s) =
    if a == 48
    then elim (base_of_letter b) [
      | some base ↦ underscores_from (base == 16) figure s
      | none ↦ underscores_from false start (a ∷ b ∷ s)
    ]
    else underscores_from false start (a ∷ b ∷ s)
underscore_ok s = underscores_from false start s

-- The base and the digits after the prefix, for base 0.
unfoldable pub split_base : Text → ℕ × Text
split_base [] = (10, [])
split_base (a ∷ []) = if a == 48 then (8, []) else (10, a ∷ [])
split_base (a ∷ b ∷ []) = if a == 48 then (8, b ∷ []) else (10, a ∷ b ∷ [])
split_base (a ∷ b ∷ c ∷ s) =
    if a == 48
    then elim (base_of_letter b) [ some base ↦ (base, c ∷ s) | none ↦ (8, b ∷ c ∷ s) ]
    else (10, a ∷ b ∷ c ∷ s)

checked : Text → Result (ℕ × Bool) → Result ℕ
unfolding underscore_ok
checked text (err e) = err e
checked text (ok (n, false)) = ok n
checked text (ok (n, true)) = if underscore_ok text then ok n else err failed

-- strconv.ParseUint(s, 0, 64)
unfoldable pub parse_uint : Text → Result ℕ
unfolding split_base checked parse_digits add_digit next_value letter_value
parse_uint [] = err failed
parse_uint (a ∷ s) =
    let (base, figures) = split_base (a ∷ s) in checked (a ∷ s) (parse_digits base figures 0 false)

-- UnmarshalJSON, after json.Unmarshal of the text.
unfoldable pub unmarshal_number : Text → Result ℕ
unfolding parse_uint
unmarshal_number text = parse_uint text
