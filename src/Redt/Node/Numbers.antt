-- ===== src/Redt/Node/Numbers.antt =====
-- toBlockNumArg (redt/redt.go): the text of a block number, read back.
use signers.Base.{
  ℕ, zero, suc, ◌+◌, ◌*◌, ◌-◌, ◌/◌, ◌%◌, ◌^◌, ◌<◌, ◌≡◌, ap, [], ◌∷◌, arith, ltb, if◌then◌else◌,
}
use signers.Base.Text.{Text, digit, digits}
use signers.Base.Int.{pos}
use signers.Redt.Node.{to_block_num_arg}

-- The value of a character of an upper-case hexadecimal number.
abbrev value_of : ℕ → ℕ
value_of c = if ltb c 65 then c - 48 else c - 55

unfoldable pub read_digits : Text → ℕ → ℕ
read_digits [] n = n
read_digits (c ∷ s) n = read_digits s (16 * n + value_of c)

value_of-digit : (d : ℕ) → d < 16 → value_of (digit 65 d) ≡ d
unfolding digit
value_of-digit d h = ground arith

shorter : (f n : ℕ) → n < 2 ^ suc f → n / 16 < 2 ^ f
shorter f n h = omega (arith, h)

read_digits-digits :
    (f n : ℕ) (out : Text) → n < 2 ^ f → read_digits (digits 16 65 f n out) 0 ≡ read_digits out n
unfolding digits read_digits
read_digits-digits zero n out h = ap (read_digits out) (omega (arith, h))
read_digits-digits (suc f) n out h = ground (
  arith,
  read_digits-digits f (n / 16) (digit 65 (n % 16) ∷ out) (shorter f n h),
  value_of-digit (n % 16) (omega arith),
)

-- The block number that a node reads: hexadecimal digits after `0x`.
unfoldable pub read_block_num : Text → ℕ
unfolding read_digits
read_block_num (a ∷ b ∷ s) = read_digits s 0
read_block_num _ = 0

-- The text of a number below 2^64 reads back as that number, so two numbers never ask for the same
-- block.
pub to_block_num_arg-read : (n : ℕ) → n < 2 ^ 64 → read_block_num (to_block_num_arg (pos n)) ≡ n
unfolding to_block_num_arg read_block_num digit
to_block_num_arg-read n h = ground (arith, read_digits-digits 64 n [] h)
