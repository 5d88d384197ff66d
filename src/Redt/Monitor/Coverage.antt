-- ===== src/Redt/Monitor/Coverage.antt =====
-- The polling loop (redt/redt.go, MonitorSigners) displays and counts every block once.
use mathlib.Core.List.{map-append}
use native.Mathlib.Numerals.{add-one}
use mathlib.Core.Path.{subst}
use signers.Base.{
  ℕ, zero, suc, ◌+◌, ◌-◌, ◌^◌, ◌≤◌, ◌<◌, ◌≡◌, refl, sym, ap, ◌∙◌, [], ◌∷◌, ◌++◌, map, arith,
  Bool-cases, inl, inr,
}
use signers.Base.Int.{pos, ◌<ℤ◌, int64-next, rounds-pos, eqb_ℤ}
use signers.Base.Exec.{returned, Exec}
use signers.Redt.Types.{block_number, Geth}
use signers.Redt.Node.{Node, Shown}
use signers.Redt.Node.Chain.{block_number-chain}
use signers.Redt.Stats.{increment, increment_all}
use signers.Redt.Stats.Counting.{increment-mod, increment_all-mod, update_fresh}
use signers.Redt.Report.{display_signers_for_block_number}
use signers.Redt.Report.Display.{show_block-Known}
use signers.Redt.Monitor.{Latest, display_blocks, advance_to, poll, poll_loop}
use signers.Redt.Monitor.Steady.{Story, Steady, Ready, Found-block, Found-newest}
use signers.Redt.Monitor.Advance.{Advanced, Advanced-none, Advanced-from, Advanced-trans}

module _ (g : Geth) (story : Story) (steady : Steady g story) where
  open story use {chain, author, signers, newest}

  -- The result of running the loop's parts over k blocks from n.
  abbrev pub Runs {ℓ} : {A : Type ℓ} → Exec (Node g) A → A → ℕ → ℕ → Node g → Type ℓ
  Runs m a k n s =
      (t : Node g) × (m s ≡ (returned a, t))
      × Ready g story t
      × Advanced g story k n s t
      × (s.calls ≤ t.calls)

  fresh_block :
      (n : ℕ) (s : Node g)
      → 0 < n
      → n < 2 ^ 63
      → Ready g story s
      → s.last_block_processed <ℤ block_number (chain n)
  fresh_block n s some_block low ready =
      rw (ready.counting, block_number-chain g chain steady.laws steady.world n low) (omega arith)

  pub display_one :
      (n latest : ℕ) (s : Node g)
      → 0 < n
      → n < 2 ^ 63
      → Ready g story s
      → Runs (display_signers_for_block_number g (pos n) latest) (chain n).time 1 n s
  unfolding display_signers_for_block_number
  display_one n latest s some_block low ready =
      let found = Found-block g story steady n s low ready.coherent in
      let s1 : Node g = record s { header_cache = found.cache; calls = found.calls } in
      let s2 : Node g = record s1 {
        as_proposer = increment s.as_proposer (author n);
        as_signer = increment_all (signers n) s.as_signer;
      } in
      let updated =
        update_fresh g (chain n) s1 (steady.recovered n some_block) ready.free
          (fresh_block n s some_block low ready) in
      let (e, shows, entry) =
        show_block-Known g s2 (pos n) (chain n) latest (author n) (signers n) ready.inhabited
          ready.members_known (ready.authors_known n) in
      (
        record s2 { screen = s.screen ++ e ∷ [] },
        rw found.lookup (rw updated (rw shows)),
        record {
          free = ready.free;
          coherent = found.coherent;
          inhabited = ready.inhabited;
          members_known = ready.members_known;
          authors_known = ready.authors_known;
          counting = ready.counting;
        },
        record {
          shown =
              map-append _ s.screen (e ∷ [])
              ∙ ap (λ i. map (λ (e : Shown). e.number) s.screen ++ i ∷ []) entry.numbered;
          proposals = λ v. omega (arith, increment-mod s.as_proposer (author n) v);
          signatures = λ v. omega (arith, increment_all-mod (signers n) s.as_signer v);
        },
        found.later,
      )

  -- The timestamp after the blocks n, n + 1, … of k blocks.
  abbrev last_time : ℕ → ℕ → ℕ → ℕ
  last_time latest zero n = latest
  last_time latest (suc k) n = last_time (chain n).time k (suc n)

  display_blocks-Runs :
      (k n latest : ℕ) (s : Node g)
      → 0 < n
      → n + k < 2 ^ 63
      → Ready g story s
      → Runs (display_blocks g k (pos n) latest) (last_time latest k n) k n s
  unfolding display_blocks
  display_blocks-Runs zero n latest s some_block low ready =
      (s, refl, ready, Advanced-none g story n s, omega arith)
  display_blocks-Runs (suc k) n latest s some_block low ready =
      let (t, shows, ready', one, later) = display_one n latest s some_block (omega arith) ready in
      let (u, rest, ready'', more, later') =
        display_blocks-Runs k (suc n) (chain n).time t (omega arith) (omega arith) ready' in
      (
        u,
        rw shows (rw (int64-next n (omega arith)) rest),
        ready'',
        subst (λ j. Advanced g story j n s u) (omega arith)
            (Advanced-trans g story 1 k n s t u one (rw add-one more)),
        omega arith,
      )

  abbrev pub at : ℕ → ℕ → Latest
  at n timestamp = record { number = pos n; timestamp = timestamp }

  advance_to-Runs :
      (n m latest : ℕ) (s : Node g)
      → n + 1 < 2 ^ 63
      → m + 1 < 2 ^ 63
      → Ready g story s
      → Runs
          (advance_to g (at n latest) (pos m))
          (at m (last_time latest (m - n) (suc n)))
          (m - n)
          (suc n)
          s
  unfolding advance_to
  advance_to-Runs n m latest s low low' ready =
      let (t, runs, ready', more, later) =
        display_blocks-Runs (m - n) (suc n) latest s (omega arith) (omega arith) ready in
      (t, rw (int64-next n low) (rw (rounds-pos m n) (rw runs)), ready', more, later)

  poll-Runs :
      (n latest : ℕ) (s : Node g)
      → n + 1 < 2 ^ 63
      → Ready g story s
      → let m = newest s.calls in
        Runs (poll g (at n latest)) (at m (last_time latest (m - n) (suc n))) (m - n) (suc n) s
  unfolding poll
  poll-Runs n latest s low ready =
      let m = newest s.calls in
      let below = steady.low s.calls in
      let found = Found-newest g story steady s ready.coherent in
      let s1 : Node g = record s { header_cache = found.cache; calls = found.calls } in
      let numbered = block_number-chain g chain steady.laws steady.world m (omega arith) in
      let ready1 : Ready g story s1 = record {
        free = ready.free;
        coherent = found.coherent;
        inhabited = ready.inhabited;
        members_known = ready.members_known;
        authors_known = ready.authors_known;
        counting = ready.counting;
      } in
      elim (Bool-cases (eqb_ℤ (pos m) (pos n))) [
        | inl same ↦
            let same_block : m ≡ n = ground arith in
            let none_new : m - n ≡ 0 = omega arith in
            rw none_new (
              s1,
              rw found.lookup
                  (rw numbered (rw same (ap (λ i. (returned (at i latest), s1)) (sym same_block)))),
              ready1,
              Advanced-from g story 0 (suc n) s s1 found.cache found.calls
                  (Advanced-none g story (suc n) s1),
              found.later,
            )
        | inr differ ↦
            let (t, runs, ready', more, later) = advance_to-Runs n m latest s1 low below ready1 in
            let late : s.calls ≤ t.calls = omega (arith, found.later) in
            (
              t,
              rw found.lookup (rw numbered (rw differ runs)),
              ready',
              Advanced-from g story (m - n) (suc n) s t found.cache found.calls more,
              late,
            )
      ]

  poll_loop_runs :
      (k n latest : ℕ) (s : Node g)
      → n ≤ newest s.calls
      → Ready g story s
      → (m timestamp : ℕ) × (t : Node g) × (n ≤ m)
        × (0 < k → newest s.calls ≤ m)
        × (m ≤ newest t.calls)
        × (poll_loop g k (at n latest) s ≡ (returned (at m timestamp), t))
        × Ready g story t
        × Advanced g story (m - n) (suc n) s t
  unfolding poll_loop
  poll_loop_runs zero n latest s behind ready =
      let none_new : n - n ≡ 0 = omega arith in
      (
        n,
        latest,
        s,
        omega arith,
        λ h. absurd (omega arith),
        behind,
        refl,
        ready,
        rw none_new (Advanced-none g story (suc n) s),
      )
  poll_loop_runs (suc k) n latest s behind ready =
      let m = newest s.calls in
      let low : n + 1 < 2 ^ 63 = omega (arith, steady.low s.calls) in
      let (t, runs, ready', more, later) = poll-Runs n latest s low ready in
      let behind' : m ≤ newest t.calls = steady.grows s.calls t.calls later in
      let (m', timestamp, u, up, reached, below, runs', ready'', more') =
        poll_loop_runs k m (last_time latest (m - n) (suc n)) t behind' ready' in
      let start : suc m ≡ suc n + (m - n) = omega arith in
      let size : m - n + (m' - m) ≡ m' - n = omega arith in
      let joined =
        Advanced-trans g story (m - n) (m' - m) (suc n) s t u more
          (subst (λ j. Advanced g story (m' - m) j t u) start more') in
      (
        m',
        timestamp,
        u,
        omega arith,
        λ h. up,
        below,
        rw runs runs',
        ready'',
        subst (λ j. Advanced g story j (suc n) s u) size joined,
      )

  -- From a ready node that displayed the blocks up to n, the polling loop ends each of its rounds.
  -- After one round or more it is at a block m, at least the newest that the node had at the
  -- first of them, and it has displayed exactly the blocks n + 1 to m, in this order and each once.
  -- The counters grew, modulo 2^64, by the proposals and signatures of just these blocks.
  pub poll_loop_coverage :
      (k n latest : ℕ) (s : Node g)
      → n ≤ newest s.calls
      → Ready g story s
      → (m timestamp : ℕ) × (t : Node g) × (newest s.calls ≤ m)
        × (m ≤ newest t.calls)
        × (poll_loop g (suc k) (at n latest) s ≡ (returned (at m timestamp), t))
        × Ready g story t
        × Advanced g story (m - n) (suc n) s t
  poll_loop_coverage k n latest s behind ready =
      let (m, timestamp, t, up, reached, below, runs, ready', more) =
        poll_loop_runs (suc k) n latest s behind ready in
      (m, timestamp, t, reached (omega arith), below, runs, ready', more)
