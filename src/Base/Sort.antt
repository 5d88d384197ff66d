-- ===== src/Base/Sort.antt =====
-- sort.Strings: the ascending arrangement of a slice of strings, by the order of their bytes.
use mathlib.Core.Path.{◌≡◌, refl}
use mathlib.Core.Bool.{Bool, true, false}
use mathlib.Core.List.{List, [], ◌∷◌, Perm}
use mathlib.Core.List.Perm
use native.Mathlib.Omega.{arith}
use signers.Base.Tests.{ltb, ◌==◌, if◌then◌else◌, Bool-cases}
use signers.Base.Text.{Text}
use mathlib.Core.Logic.{inl, inr}
use signers.Base.Lists.{All}

-- `s <= t` of Go strings.
unfoldable pub text_le : Text → Text → Bool
text_le [] t = true
text_le (a ∷ s) [] = false
text_le (a ∷ s) (b ∷ t) = if a == b then text_le s t else ltb a b

unfoldable pub insert : Text → List Text → List Text
insert t [] = t ∷ []
insert t (u ∷ us) = if text_le t u then t ∷ u ∷ us else u ∷ insert t us

unfoldable pub sort_strings : List Text → List Text
unfolding insert
sort_strings [] = []
sort_strings (t ∷ ts) = insert t (sort_strings ts)

-- Each text is at most every later one.
abbrev pub IsSorted : List Text → Type 0
IsSorted [] = Unit
IsSorted (t ∷ ts) = All (λ u. text_le t u ≡ true) ts × IsSorted ts

text_le-total : (s t : Text) → text_le s t ≡ false → text_le t s ≡ true
unfolding text_le
text_le-total [] t h = ground arith
text_le-total (a ∷ s) [] h = refl
text_le-total (a ∷ s) (b ∷ t) h = ground (arith, text_le-total s t)

text_le_trans : (s t u : Text) → text_le s t ≡ true → text_le t u ≡ true → text_le s u ≡ true
unfolding text_le
text_le_trans [] t u h k = refl
text_le_trans (a ∷ s) [] u h k = ground arith
text_le_trans (a ∷ s) (b ∷ t) [] h k = ground arith
text_le_trans (a ∷ s) (b ∷ t) (c ∷ u) h k = ground (arith, text_le_trans s t u)

All-le_trans :
    (s t : Text) (us : List Text)
    → text_le s t ≡ true
    → All (λ u. text_le t u ≡ true) us
    → All (λ u. text_le s u ≡ true) us
All-le_trans s t [] h k = tt
All-le_trans s t (u ∷ us) h k = (text_le_trans s t u h k.0, All-le_trans s t us h k.1)

All-insert :
    (s t : Text) (us : List Text)
    → text_le s t ≡ true
    → All (λ u. text_le s u ≡ true) us
    → All (λ u. text_le s u ≡ true) (insert t us)
unfolding insert
All-insert s t [] h k = (h, tt)
All-insert s t (u ∷ us) h k = elim (Bool-cases (text_le t u)) [
  | inl e ↦ rw e (h, k)
  | inr e ↦ rw e (k.0, All-insert s t us h k.1)
]

insert-IsSorted : (t : Text) (us : List Text) → IsSorted us → IsSorted (insert t us)
unfolding insert
insert-IsSorted t [] h = (tt, tt)
insert-IsSorted t (u ∷ us) h = elim (Bool-cases (text_le t u)) [
  | inl e ↦ rw e ((e, All-le_trans t u us e h.0), h)
  | inr e ↦ rw e (All-insert u t us (text_le-total t u e) h.0, insert-IsSorted t us h.1)
]

pub sort_strings-IsSorted : (ts : List Text) → IsSorted (sort_strings ts)
unfolding sort_strings
sort_strings-IsSorted [] = tt
sort_strings-IsSorted (t ∷ ts) = insert-IsSorted t (sort_strings ts) (sort_strings-IsSorted ts)

insert-perm : (t : Text) (us : List Text) → Perm (insert t us) (t ∷ us)
unfolding insert
insert-perm t [] = Perm.refl (t ∷ [])
insert-perm t (u ∷ us) = elim (Bool-cases (text_le t u)) [
  | inl e ↦ rw e (Perm.refl (t ∷ u ∷ us))
  | inr e ↦ rw e (Perm.trans (Perm.cons u (insert-perm t us)) (Perm.swap t u us))
]

pub sort_strings-perm : (ts : List Text) → Perm (sort_strings ts) ts
unfolding sort_strings
sort_strings-perm [] = Perm.refl []
sort_strings-perm (t ∷ ts) =
    Perm.trans (insert-perm t (sort_strings ts)) (Perm.cons t (sort_strings-perm ts))

module _ {κ} (P : Text → Type κ) where
  All-insert_any : (t : Text) (us : List Text) → P t → All P us → All P (insert t us)
  unfolding insert
  All-insert_any t [] h k = (h, tt)
  All-insert_any t (u ∷ us) h k = elim (Bool-cases (text_le t u)) [
    | inl e ↦ rw e (h, k)
    | inr e ↦ rw e (k.0, All-insert_any t us h k.1)
  ]

  pub All-sort_strings : (ts : List Text) → All P ts → All P (sort_strings ts)
  unfolding sort_strings
  All-sort_strings [] h = tt
  All-sort_strings (t ∷ ts) h = All-insert_any t (sort_strings ts) h.0 (All-sort_strings ts h.1)
