-- ===== src/Redt/Monitor/Advance.antt =====
-- The blocks that a run of redt/redt.go displays and counts.
use native.Mathlib.Nat.{zero-add, add-zero, add-suc, suc-add}
use signers.Base.{
  ℕ, zero, suc, ◌+◌, ◌%◌, ◌^◌, ◌≡◌, sym, ap, ◌∙◌, List, [], ◌∷◌, ◌++◌, map, append_assoc,
  append-nil, arith, count,
}
use signers.Base.Int.{ℤ, pos}
use signers.Redt.Types.{Address, Geth}
use signers.Redt.Node.{Node}
use signers.Redt.Monitor.Steady.{Story}

-- The block numbers n, n + 1, … of k blocks.
abbrev pub upto : ℕ → ℕ → List ℤ
upto zero n = []
upto (suc k) n = pos n ∷ upto k (suc n)

-- How often an address stands in the lists of the blocks n, n + 1, … of k blocks.
abbrev pub total : (ℕ → List Address) → Address → ℕ → ℕ → ℕ
total f v zero n = 0
total f v (suc k) n = count v (f n) + total f v k (suc n)

upto-append : (k j n : ℕ) → upto k n ++ upto j (n + k) ≡ upto (k + j) n
upto-append zero j n = rw (add-zero, zero-add)
upto-append (suc k) j n =
    rw (suc-add k j, add-suc n k, ← suc-add n k) (ap (◌∷◌ (pos n)) (upto-append k j (suc n)))

total-append :
    (f : ℕ → List Address) (v : Address) (k j n : ℕ)
    → total f v k n + total f v j (n + k) ≡ total f v (k + j) n
total-append f v zero j n = rw (add-zero, zero-add, zero-add)
total-append f v (suc k) j n =
    rw (suc-add k j, add-suc n k, ← suc-add n k) (omega (arith, total-append f v k j (suc n)))

module _ (g : Geth) (story : Story) where
  open story use {chain, author, signers}

  -- From `s` to `t` the blocks n, n + 1, … of k blocks were displayed, in this order, and counted.
  pub record Advanced (k n : ℕ) (s t : Node g) : Type 0 where
    pub shown : map (λ e. e.number) t.screen ≡ map (λ e. e.number) s.screen ++ upto k n
    pub proposals :
        (v : Address)
        → t.as_proposer v % 2 ^ 64 ≡ (s.as_proposer v + total (λ i. author i ∷ []) v k n) % 2 ^ 64
    pub signatures :
        (v : Address) → t.as_signer v % 2 ^ 64 ≡ (s.as_signer v + total signers v k n) % 2 ^ 64

  pub Advanced-none : (n : ℕ) (s : Node g) → Advanced 0 n s s
  Advanced-none n s = record {
    shown = sym (append-nil _);
    proposals = λ v. omega arith;
    signatures = λ v. omega arith;
  }

  -- The cache and the count of calls do not matter.
  pub Advanced-from :
      (k n : ℕ) (s t : Node g) (cache : g.Cache) (calls : ℕ)
      → Advanced k n (record s { header_cache = cache; calls = calls }) t
      → Advanced k n s t
  Advanced-from k n s t cache calls a = record {
    shown = a.shown;
    proposals = a.proposals;
    signatures = a.signatures;
  }

  pub Advanced-trans :
      (k j n : ℕ) (s t u : Node g)
      → Advanced k n s t
      → Advanced j (n + k) t u
      → Advanced (k + j) n s u
  Advanced-trans k j n s t u a b = record {
    shown =
        b.shown
        ∙ ap (λ l. l ++ upto j (n + k)) a.shown
        ∙ append_assoc _ (upto k n) (upto j (n + k))
        ∙ ap (λ l. map (λ e. e.number) s.screen ++ l) (upto-append k j n);
    proposals =
        λ v. omega (arith, a.proposals v, b.proposals v, total-append (λ i. author i ∷ []) v k j n);
    signatures = λ v. omega (arith, a.signatures v, b.signatures v, total-append signers v k j n);
  }
