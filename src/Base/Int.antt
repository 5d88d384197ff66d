-- ===== src/Base/Int.antt =====
-- Signed 64-bit integers (Go's int64): an integer and the wrap-around of its operations.
use signers.Base.Tests.{ltb, leb, ◌==◌, if◌then◌else◌}
use Prim.Native.Nat.{ℕ, suc, ◌+◌, ◌-◌, ◌%◌, ◌^◌, ◌≤◌, ◌<◌}
use mathlib.Core.Path.{◌≡◌}
use mathlib.Core.Bool.{Bool, true}
use native.Mathlib.Omega.{arith}

-- `negsuc n` is -(n + 1).
pub data ℤ : Type 0 where
  pos : ℕ → ℤ
  negsuc : ℕ → ℤ

abbrev pub pos_part : ℤ → ℕ
pos_part (pos n) = n
pos_part (negsuc n) = 0

abbrev pub neg_part : ℤ → ℕ
neg_part (pos n) = 0
neg_part (negsuc n) = suc n

-- a - b, as an integer.
abbrev pub sub_ℕ : ℕ → ℕ → ℤ
sub_ℕ a b = if leb b a then pos (a - b) else negsuc (b - a - 1)

infixl 65 ◌+ℤ◌ ◌-ℤ◌
unfoldable pub ◌+ℤ◌ : ℤ → ℤ → ℤ
a +ℤ b = sub_ℕ (pos_part a + pos_part b) (neg_part a + neg_part b)

unfoldable pub ◌-ℤ◌ : ℤ → ℤ → ℤ
a -ℤ b = sub_ℕ (pos_part a + neg_part b) (neg_part a + pos_part b)

abbrev pub leb_ℤ : ℤ → ℤ → Bool
leb_ℤ a b = leb (pos_part a + neg_part b) (pos_part b + neg_part a)

abbrev pub eqb_ℤ : ℤ → ℤ → Bool
eqb_ℤ a b = pos_part a + neg_part b == pos_part b + neg_part a

infix 50 ◌≤ℤ◌ ◌<ℤ◌
abbrev pub ◌≤ℤ◌ : ℤ → ℤ → Type 0
a ≤ℤ b = pos_part a + neg_part b ≤ pos_part b + neg_part a

abbrev pub ◌<ℤ◌ : ℤ → ℤ → Type 0
a <ℤ b = pos_part a + neg_part b < pos_part b + neg_part a

-- The residue of an integer modulo 2^64: its 64-bit pattern.
unfoldable pub pattern64 : ℤ → ℕ
pattern64 (pos n) = n % 2 ^ 64
pattern64 (negsuc n) = 2 ^ 64 - 1 - n % 2 ^ 64

-- The signed reading of a 64-bit pattern.
unfoldable pub signed64 : ℕ → ℤ
signed64 w = if ltb w (2 ^ 63) then pos w else negsuc (2 ^ 64 - 1 - w)

-- The conversion to int64 of a mathematical integer, or of the result of an operation.
unfoldable pub int64 : ℤ → ℤ
unfolding pattern64 signed64
int64 z = signed64 (pattern64 z)

-- The rounds of `for i := a; i <= b; i++`.
unfoldable pub rounds : ℤ → ℤ → ℕ
unfolding ◌+ℤ◌ ◌-ℤ◌
rounds a b = pos_part (b +ℤ pos 1 -ℤ a)

-- While the test of the loop holds, one round fewer is left after `i++`.
pub rounds-suc : (a b : ℤ) → leb_ℤ a b ≡ true → rounds a b ≡ suc (rounds (a +ℤ pos 1) b)
unfolding rounds
rounds-suc a b h = ground arith

pub eqb_ℤ-eq : (a b : ℤ) → eqb_ℤ a b ≡ true → a ≡ b
eqb_ℤ-eq a b h = ground arith

pub eqb_ℤ-refl : (a : ℤ) → eqb_ℤ a a ≡ true
eqb_ℤ-refl a = ground arith

-- Going back from a block number to one that is not negative.
pub int64-sub : (m n : ℕ) → n ≤ m → m + 1 < 2 ^ 63 → int64 (pos m -ℤ pos n) ≡ pos (m - n)
unfolding int64 ◌-ℤ◌
int64-sub m n within h = ground arith

pub int64-pos : (n : ℕ) → n < 2 ^ 63 → int64 (pos n) ≡ pos n
unfolding int64
int64-pos n h = ground arith

-- `i++` below the largest int64 does not wrap.
pub int64-next : (n : ℕ) → n + 1 < 2 ^ 63 → int64 (pos n +ℤ pos 1) ≡ pos (suc n)
unfolding int64 ◌+ℤ◌
int64-next n h = ground arith

pub rounds-pos : (m n : ℕ) → rounds (pos (suc n)) (pos m) ≡ m - n
unfolding rounds
rounds-pos m n = ground arith

pub int64-prev : (n : ℕ) → 0 < n → n < 2 ^ 63 → int64 (pos n -ℤ pos 1) ≡ pos (n - 1)
unfolding int64 ◌-ℤ◌
int64-prev n positive h = ground arith
