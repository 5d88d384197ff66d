-- ===== src/Client/Socket/Entries.antt =====
-- The map of the pending calls of client/ws.go: its entries by id and by channel.
use signers.Base.{
  ℕ, ◌≡◌, ◌⊎◌, inl, inr, refl, sym, true, false, List, [], ◌∷◌, some, arith, All, ◌==◌, Bool-cases,
}
use mathlib.Core.Path.{subst}
use signers.Base.Text.{Text, text_eq, text_eq-eq}
use signers.Client.Socket.{find, remove}

-- No pending call uses the channel.
abbrev pub Absent : ℕ → List (Text × ℕ) → Type 0
Absent ch = All (λ e. (e.1 == ch) ≡ false)

-- No pending call but those under `id` uses the channel.
abbrev pub Elsewhere : Text → ℕ → List (Text × ℕ) → Type 0
Elsewhere id ch = All (λ e. (text_eq e.0 id ≡ true) ⊎ ((e.1 == ch) ≡ false))

pub find-Absent :
    (ch : ℕ) (j : Text) (ps : List (Text × ℕ)) (c : ℕ)
    → Absent ch ps
    → find j ps ≡ some c
    → (c == ch) ≡ false
unfolding find
find-Absent ch j [] c absent found = cc
find-Absent ch j ((key, d) ∷ ps) c absent found = ground (arith, find-Absent ch j ps c)

pub remove-Absent :
    (ch : ℕ) (j : Text) (ps : List (Text × ℕ)) → Absent ch ps → Absent ch (remove j ps)
unfolding remove
remove-Absent ch j [] absent = tt
remove-Absent ch j ((key, d) ∷ ps) absent = elim (Bool-cases (text_eq key j)) [
  | inl same ↦ rw same (remove-Absent ch j ps absent.1)
  | inr differ ↦ rw differ (absent.0, remove-Absent ch j ps absent.1)
]

-- What is left when the call is removed.
pub remove-Elsewhere :
    (id : Text) (ch : ℕ) (ps : List (Text × ℕ)) → Elsewhere id ch ps → Absent ch (remove id ps)
unfolding remove
remove-Elsewhere id ch [] others = tt
remove-Elsewhere id ch ((key, d) ∷ ps) (inl same, others) =
    rw same (remove-Elsewhere id ch ps others)
remove-Elsewhere id ch ((key, d) ∷ ps) (inr other, others) = elim (Bool-cases (text_eq key id)) [
  | inl same ↦ rw same (remove-Elsewhere id ch ps others)
  | inr differ ↦ rw differ (other, remove-Elsewhere id ch ps others)
]

pub Elsewhere-remove :
    (id j : Text) (ch : ℕ) (ps : List (Text × ℕ))
    → Elsewhere id ch ps
    → Elsewhere id ch (remove j ps)
unfolding remove
Elsewhere-remove id j ch [] others = tt
Elsewhere-remove id j ch ((key, d) ∷ ps) others = elim (Bool-cases (text_eq key j)) [
  | inl same ↦ rw same (Elsewhere-remove id j ch ps others.1)
  | inr differ ↦ rw differ (others.0, Elsewhere-remove id j ch ps others.1)
]

text_eq-other : (a b c : Text) → text_eq a b ≡ true → text_eq b c ≡ false → text_eq a c ≡ false
text_eq-other a b c same differ =
    subst (λ x. text_eq x c ≡ false) (sym (text_eq-eq a b same)) differ

pub find-Elsewhere :
    (id j : Text) (ch : ℕ) (ps : List (Text × ℕ)) (c : ℕ)
    → Elsewhere id ch ps
    → text_eq j id ≡ false
    → find j ps ≡ some c
    → (c == ch) ≡ false
unfolding find
find-Elsewhere id j ch [] c others differ found = cc
find-Elsewhere id j ch ((key, d) ∷ ps) c (here, others) differ found =
    elim (Bool-cases (text_eq key j)) [
      | inl same ↦
          let away = text_eq-other key j id same differ in
          elim here [ inl both ↦ absurd (cc) | inr other ↦ ground arith ]
      | inr apart ↦ find-Elsewhere id j ch ps c others differ (rw⁻¹ found (rw apart refl))
    ]

pub find-remove :
    (id j : Text) (ps : List (Text × ℕ)) → text_eq j id ≡ false → find id (remove j ps) ≡ find id ps
unfolding find remove
find-remove id j [] differ = refl
find-remove id j ((key, d) ∷ ps) differ = elim (Bool-cases (text_eq key j)) [
  | inl same ↦
      let away = text_eq-other key j id same differ in rw (same, away) (find-remove id j ps differ)
  | inr apart ↦ rw apart (ground (arith, find-remove id j ps differ))
]
