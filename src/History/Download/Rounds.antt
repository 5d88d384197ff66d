-- ===== src/History/Download/Rounds.antt =====
-- The loops of both downloads (history/history.go), round after round.
use mathlib.Core.Path.{subst}
use native.Mathlib.Nat.{add-zero, add-suc}
use signers.Base.{
  ℕ, zero, suc, ◌+◌, ◌-◌, ◌^◌, ◌<◌, ◌≡◌, ◌≢◌, refl, sym, ap, ◌∙◌, List, ◌++◌, arith, All,
}
use signers.Base.Int.{ℤ, pos, int64-next}
use signers.Base.Exec.{ok, returned}
use signers.Redt.Types.{Geth}
use signers.Redt.Monitor.Steady.{Story, Steady}
use signers.History.Sqlite.{Sqlite, SqliteLaws}
use signers.History.Download.{State, copy_up, copy_down}
use signers.History.Download.Blocks.{taken}
use signers.History.Download.Downwards.{below, previous}
use signers.History.Download.Steps.{
  Willing, Unused, All-weaken, All-append, All-taken, Progress, reliable, round,
}

module _ (g : Geth) (q : Sqlite) (story : Story) (steady : Steady g story) (laws : SqliteLaws q)
    (willing : Willing q laws) (old : List ℕ) where
  open story use {chain}

  unseen_up :
      (first done : ℕ)
      → All (λ x. x < first) old
      → Unused (first + done) (old ++ taken (◌+◌ first) done)
  unseen_up first done below_first =
      All-append (λ x. x ≢ first + done) old (taken (◌+◌ first) done)
        (All-weaken (λ x. x < first) (λ x. x ≢ first + done) old (λ x lt e. omega (arith, e))
          below_first)
        (All-taken (λ x. x ≢ first + done) (◌+◌ first) done (λ i lt e. omega (arith, e)))

  unseen_down :
      (n done : ℕ)
      → done < n
      → All (λ x. n < x) old
      → Unused (n - done) (old ++ taken (below n) done)
  unseen_down n done some_left above =
      All-append (λ x. x ≢ n - done) old (taken (below n) done)
        (All-weaken (λ x. n < x) (λ x. x ≢ n - done) old (λ x lt e. omega (arith, e)) above)
        (All-taken (λ x. x ≢ n - done) (below n) done (λ i lt e. omega (arith, e)))

  pub copy_up-Progress :
      (first k done count : ℕ) (i : ℤ) (s : State g q)
      → 0 < first
      → All (λ x. x < first) old
      → i ≡ pos (first + done)
      → first + (done + k) < 2 ^ 63
      → Progress g q story steady laws willing old (◌+◌ first) done count s
      → (count' : ℕ) × (t : State g q) × (copy_up g q k i count s ≡ (returned (ok tt), t))
        × Progress g q story steady laws willing old (◌+◌ first) (done + k) count' t
  unfolding copy_up
  copy_up-Progress first zero done count i s some_block below_first at low p =
      (count, s, refl, rw add-zero p)
  copy_up-Progress first (suc k) done count i s some_block below_first at low p =
      let r =
        round g q story steady laws willing old (◌+◌ first) done count (first + done) s
          (omega arith) (omega arith) refl (unseen_up first done below_first) p in
      let (count', t, runs, p') =
        copy_up-Progress first k (suc done) r.count' _ r.after some_block below_first
          (int64-next (first + done) (omega arith) ∙ ap pos (sym (add-suc first done)))
          (omega arith) r.progress in
      let same : suc done + k ≡ done + suc k = omega arith in
      (
        count',
        t,
        rw at (r.runs _ ∙ runs),
        subst (λ d. Progress g q story steady laws willing old (◌+◌ first) d count' t) same p',
      )

  -- Downwards, all rounds but the last.
  pub copy_down-Progress :
      (n k done count : ℕ) (i : ℤ) (s : State g q)
      → All (λ x. n < x) old
      → i ≡ pos (n - done)
      → done + k ≡ n
      → n < 2 ^ 63
      → Progress g q story steady laws willing old (below n) done count s
      → (count' : ℕ) × (t : State g q) × (copy_down g q (suc k) i count s
          ≡ copy_down g q 1 (pos 0) count' t)
        × Progress g q story steady laws willing old (below n) n count' t
  unfolding copy_down
  copy_down-Progress n zero done count i s above at all low p =
      let last : n - done ≡ 0 = omega arith in
      let over : done ≡ n = omega arith in
      (
        count,
        s,
        ap (λ z. copy_down g q 1 z count s) (at ∙ ap pos last),
        subst (λ d. Progress g q story steady laws willing old (below n) d count s) over p,
      )
  copy_down-Progress n (suc k) done count i s above at all low p =
      let r =
        round g q story steady laws willing old (below n) done count (n - done) s (omega arith)
          (omega arith) refl (unseen_down n done (omega arith) above) p in
      let (count', t, runs, p') =
        copy_down-Progress n k (suc done) r.count' _ r.after above
          (previous g q chain (reliable g q story steady laws willing) old n done (omega arith) low)
          (omega arith) low r.progress in
      (count', t, rw at (r.runs _ ∙ runs), p')
