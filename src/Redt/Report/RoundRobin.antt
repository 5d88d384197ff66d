-- ===== src/Redt/Report/RoundRobin.antt =====
-- The next proposer (redt/redt.go, SignersForHeader and DisplaySignersForBlockNumber).
use signers.Base.{
  ℕ, zero, suc, ◌+◌, ◌%◌, ◌<◌, ◌≡◌, refl, true, false, List, [], ◌∷◌, Option, none, some, arith,
  length, get_elem?, contains,
}
use native.Mathlib.Nat.{zero-add}
use signers.Base.Exec.{returned}
use signers.Redt.Types.{Address}
use signers.Redt.Report.{index_from, next_index_of, next_proposer}

-- No address stands twice.
abbrev pub Distinct : List Address → Type 0
Distinct [] = Unit
Distinct (v ∷ vs) = (contains v vs ≡ false) × Distinct vs

contains_elem :
    (vs : List Address) (i : ℕ) (a : Address) → get_elem? vs i ≡ some a → contains a vs ≡ true
unfolding contains
contains_elem [] i a h = cc
contains_elem (v ∷ vs) zero a h = ground arith
contains_elem (v ∷ vs) (suc i) a h = ground (arith, contains_elem vs i a)

index_from-elem :
    (k : ℕ) (vs : List Address) (i : ℕ) (a : Address)
    → Distinct vs
    → get_elem? vs i ≡ some a
    → index_from k a vs ≡ some (k + i)
unfolding index_from
index_from-elem k [] i a d h = cc
index_from-elem k (v ∷ vs) zero a d h = ground arith
index_from-elem k (v ∷ vs) (suc i) a d h =
    ground (arith, contains_elem vs i a, index_from-elem (suc k) vs i a)

get_elem?-some :
    (vs : List Address) (i : ℕ) → i < length vs → (a : Address) × (get_elem? vs i ≡ some a)
get_elem?-some [] i h = absurd (omega arith)
get_elem?-some (v ∷ vs) zero h = (v, refl)
get_elem?-some (v ∷ vs) (suc i) h = get_elem?-some vs i (omega arith)

get_elem?-lt : (vs : List Address) (i : ℕ) (a : Address) → get_elem? vs i ≡ some a → i < length vs
get_elem?-lt [] i a h = cc
get_elem?-lt (v ∷ vs) zero a h = omega arith
get_elem?-lt (v ∷ vs) (suc i) a h = omega (arith, get_elem?-lt vs i a h)

-- In a set without repetitions, after the validator at position i comes the one at position
-- (i + 1) modulo the size of the set: the last is followed by the first, and nothing panics.
pub next_proposer-round_robin :
    (vs : List Address)
    → Distinct vs
    → (i : ℕ) (a : Address) → get_elem? vs i ≡ some a
    → (b : Address) × (get_elem? vs ((i + 1) % length vs) ≡ some b)
      × (next_proposer a vs ≡ returned b)
unfolding next_proposer next_index_of
next_proposer-round_robin vs d i a h =
    let small = get_elem?-lt vs i a h in
    let (b, found) = get_elem?-some vs ((i + 1) % length vs) (omega arith) in
    (b, found, rw (index_from-elem 0 vs i a d h) (rw zero-add (rw found)))

next_index-lt : (o : Option ℕ) (n : ℕ) → next_index_of o (suc n) < suc n
unfolding next_index_of
next_index-lt none n = omega arith
next_index-lt (some i) n = omega arith

-- In a set that is not empty, whoever the author is, the choice of the next proposer does not panic
-- and gives a member of the set.
pub next_proposer-member :
    (vs : List Address) (a : Address)
    → 0 < length vs
    → (i : ℕ) × (b : Address) × (get_elem? vs i ≡ some b) × (next_proposer a vs ≡ returned b)
unfolding next_proposer
next_proposer-member [] a h = absurd (omega arith)
next_proposer-member (v ∷ vs) a h =
    let i = next_index_of (index_from 0 a (v ∷ vs)) (suc (length vs)) in
    let (b, found) = get_elem?-some (v ∷ vs) i (next_index-lt _ (length vs)) in
    (i, b, found, rw found)
