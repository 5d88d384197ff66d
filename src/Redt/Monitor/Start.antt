-- ===== src/Redt/Monitor/Start.antt =====
-- MonitorSigners (redt/redt.go) from its start, without blocks of the past.
use signers.Base.{ℕ, suc, ◌+◌, ◌-◌, ◌^◌, ◌≤◌, ◌<◌, ◌≡◌, ap, ◌∙◌, arith}
use mathlib.Core.Path.{subst}
use signers.Base.Int.{ℤ, pos, ◌≤ℤ◌, ◌-ℤ◌, int64, int64-sub}
use signers.Base.Exec.{returned}
use native.Mathlib.Numerals.{add-one}
use signers.Redt.Types.{Geth}
use signers.Redt.Node.{Node}
use signers.Redt.Node.Chain.{block_number-chain}
use signers.Redt.Stats.Deadlock.{zeroed, initialize_stats-eq}
use signers.Redt.Monitor.{monitor_signers}
use signers.Redt.Monitor.Steady.{Story, Steady, Ready, Found-block, Found-newest}
use signers.Redt.Monitor.Advance.{Advanced, Advanced-from, Advanced-trans}
use signers.Redt.Monitor.Coverage.{display_one, at, poll_loop_coverage}

same_number : (c : ℕ) → c + 1 < 2 ^ 63 → int64 (pos c -ℤ pos 0) ≡ pos c
same_number c low = int64-sub c 0 (omega arith) low ∙ ap pos (none_less c)
  where
    none_less : (n : ℕ) → n - 0 ≡ n
    none_less n = omega arith

module _ (g : Geth) (story : Story) (steady : Steady g story) where
  open story use {chain, author, signers, newest}

  -- MonitorSigners without blocks of the past, started on a ready node whose newest block c is not
  -- the genesis block, ends each round of its loop. After one round or more it is at a block m,
  -- at least c, and has displayed exactly the blocks c to m, in this order and each once. The
  -- counters of the validator set started at 0, and grew, modulo 2^64, by these blocks.
  pub monitor_signers-start :
      (k : ℕ) (n : ℤ) (s : Node g)
      → n ≤ℤ pos 0
      → 0 < newest s.calls
      → Ready g story s
      → (m timestamp : ℕ) × (t : Node g) × (newest s.calls ≤ m)
        × (monitor_signers g n (suc k) s ≡ (returned (at g story steady m timestamp), t))
        × Ready g story t
        × Advanced g story (suc (m - newest s.calls)) (newest s.calls) (zeroed s) t
  unfolding monitor_signers
  monitor_signers-start k n s none some_block ready =
      let c = newest s.calls in
      let low = steady.low s.calls in
      let s0 : Node g = zeroed s in
      let found = Found-newest g story steady s0 ready.coherent in
      let s1 : Node g = record s0 { header_cache = found.cache; calls = found.calls } in
      let numbered = block_number-chain g chain steady.laws steady.world c (omega arith) in
      let again = Found-block g story steady c s1 (omega arith) found.coherent in
      let s2 : Node g = record s1 { header_cache = again.cache; calls = again.calls } in
      let ready2 : Ready g story s2 = record {
        free = ready.free;
        coherent = again.coherent;
        inhabited = ready.inhabited;
        members_known = ready.members_known;
        authors_known = ready.authors_known;
        counting = ready.counting;
      } in
      let (t, shows, ready', one, later) =
        display_one g story steady c (chain c).time s2 some_block (omega arith) ready2 in
      let up = steady.grows s.calls t.calls (omega (arith, found.later, again.later, later)) in
      let (m, timestamp, u, reached, below, runs, ready'', more) =
        poll_loop_coverage g story steady k c (chain c).time t up ready' in
      let size : 1 + (m - c) ≡ suc (m - c) = omega arith in
      let joined = Advanced-trans g story 1 (m - c) c s2 t u one (rw add-one more) in
      (
        m,
        timestamp,
        u,
        omega (arith, reached, up),
        rw (initialize_stats-eq g n s none ready.free) (
            rw found.lookup
              (rw (numbered, same_number c low) (rw again.lookup (rw numbered (rw shows runs))))),
        ready'',
        subst (λ j. Advanced g story j c s0 u) size
            (Advanced-from g story (1 + (m - c)) c s0 u again.cache again.calls joined),
      )
