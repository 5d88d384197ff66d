-- ===== src/Redt/Stats/Deadlock.antt =====
-- InitializeStats (redt/redt.go): the reset without history, and the lock that it takes twice.
use signers.Base.{
  ℕ, zero, suc, ◌-◌, ◌≤◌, ◌^◌, ◌<◌, ◌≡◌, refl, true, List, [], ◌∷◌, arith, if◌then◌else◌, contains,
  ◌⊎◌, inl, inr,
}
use signers.Base.Int.{◌+ℤ◌, ℤ, pos, ◌≤ℤ◌, int64-sub, rounds, rounds-suc}
use signers.Base.Exec.{returned, blocked}
use signers.Redt.Types.{Address, Geth}
use signers.Redt.Node.{RedTNode, Node}
use signers.Redt.Node.Chain.{Coherent, block_number-chain}
use signers.Redt.Monitor.Steady.{Story, Steady, Found-block, Found-newest}
use signers.Redt.Create.{zero_all, assign}
use signers.Redt.Stats.{
  signers_from_block, replay_blocks, replay_from, replay_last, reset_counters, initialize_stats,
}
use signers.Redt.Stats.Counting.{IsFree, Keeps, update_locked}

-- `zero_all` sets exactly the listed counters to 0.
pub zero_all-eq :
    (addrs : List Address) (m : Address → ℕ) (v : Address)
    → zero_all addrs m v ≡ (if contains v addrs then 0 else m v)
unfolding zero_all contains
zero_all-eq [] m v = refl
zero_all-eq (a ∷ addrs) m v = ground (arith, zero_all-eq addrs (assign m a 0) v)

zero-cases : (n : ℕ) → (0 < n) ⊎ (n ≡ 0)
zero-cases zero = inr refl
zero-cases (suc n) = inl (omega arith)

module _ (g : Geth) (story : Story) (steady : Steady g story) where
  open story use {chain, author, signers, newest}

  -- The seals of block n are recovered.
  abbrev pub Recovered : ℕ → Type 0
  Recovered n = (found : Address × List Address) × (signers_from_block g (chain n) ≡ returned found)

  replay_blocks_blocked :
      (k n : ℕ) (t : Node g)
      → n < 2 ^ 63
      → Recovered n
      → Coherent g chain t.header_cache
      → t.locked ≡ true
      → (replay_blocks g (suc k) (pos n) t).0 ≡ blocked
  unfolding replay_blocks
  replay_blocks_blocked k n t low (_, recovered) coherent held =
      let found = Found-block g story steady n t low coherent in
      let u : Node g = record t { header_cache = found.cache; calls = found.calls } in
      rw found.lookup (rw (update_locked g (chain n) u recovered held))

  replay_from_blocked :
      (old current : ℕ) (t : Node g)
      → old ≤ current
      → old < 2 ^ 63
      → Recovered old
      → Coherent g chain t.header_cache
      → t.locked ≡ true
      → (replay_from g (pos old) (pos current) t).0 ≡ blocked
  unfolding replay_from
  replay_from_blocked old current t some_round low recovered coherent held =
      rw (rounds-suc (pos old) (pos current) (ground arith)) (
        ground (
          arith,
          replay_blocks_blocked (rounds (pos old +ℤ pos 1) (pos current)) old t low recovered
              coherent held,
        ))

  replay_last_blocked :
      (n : ℕ) (t : Node g)
      → n ≤ newest t.calls
      → Recovered (newest t.calls - n)
      → Coherent g chain t.header_cache
      → t.locked ≡ true
      → (replay_last g (pos n) t).0 ≡ blocked
  unfolding replay_last
  replay_last_blocked n t within recovered coherent held =
      let m = newest t.calls in
      let low = steady.low t.calls in
      let found = Found-newest g story steady t coherent in
      let u : Node g = record t { header_cache = found.cache; calls = found.calls } in
      rw found.lookup (
        rw
          (
            block_number-chain g chain steady.laws steady.world m (omega arith),
            int64-sub m n within low,
          )
          (replay_from_blocked (m - n) m u (omega arith) (omega arith) recovered found.coherent
            held))

  oldest-Recovered : (n m : ℕ) → n ≤ m → (n ≡ m → Recovered 0) → Recovered (m - n)
  oldest-Recovered n m within genesis = elim (zero-cases (m - n)) [
    | inl some_block ↦ ((author (m - n), signers (m - n)), steady.recovered (m - n) some_block)
    | inr none ↦ rw none (genesis (omega arith))
  ]

  -- On a node that serves its blocks and whose seals are recovered, InitializeStats never returns
  -- for a number of past blocks from 1 up to the number of the newest block: it waits for the lock
  -- that it holds itself. Where it is to start at the genesis block, this needs a genesis block
  -- whose seals are recovered.
  pub initialize_stats-blocked :
      (n : ℕ) (s : Node g)
      → 0 < n
      → n ≤ newest s.calls
      → (n ≡ newest s.calls → Recovered 0)
      → Coherent g chain s.header_cache
      → IsFree s
      → (initialize_stats g (pos n) s).0 ≡ blocked
  unfolding initialize_stats
  initialize_stats-blocked (suc n) s some_block within genesis coherent free = ground (
    arith,
    replay_last_blocked (suc n) (reset_counters g (record s { locked = true })) within
        (oldest-Recovered (suc n) (newest s.calls) within genesis) coherent refl,
  )
  initialize_stats-blocked zero s some_block within genesis coherent free = absurd (omega arith)

-- The node after the reset of the counters.
abbrev pub zeroed : {C : Type 0} → RedTNode C → RedTNode C
zeroed s = record s {
  as_proposer = zero_all s.val_set s.as_proposer;
  as_signer = zero_all s.val_set s.as_signer;
}

pub initialize_stats-eq :
    (g : Geth) (n : ℤ) (s : Node g)
    → n ≤ℤ pos 0
    → IsFree s
    → initialize_stats g n s ≡ (returned tt, zeroed s)
unfolding initialize_stats
initialize_stats-eq g n s none free = ground arith

-- Without past blocks it returns, the counters of the validator set are 0, all other counters and
-- fields are as they were, and the lock is free.
pub initialize_stats-resets :
    (g : Geth) (n : ℤ) (s : Node g)
    → n ≤ℤ pos 0
    → IsFree s
    → let (o, t) = initialize_stats g n s in
      (o ≡ returned tt)
      × ((v : Address) → t.as_proposer v ≡ (if contains v s.val_set then 0 else s.as_proposer v))
      × ((v : Address) → t.as_signer v ≡ (if contains v s.val_set then 0 else s.as_signer v))
      × Keeps s t
initialize_stats-resets g n s none free = rw (initialize_stats-eq g n s none free) (
  refl,
  zero_all-eq s.val_set s.as_proposer,
  zero_all-eq s.val_set s.as_signer,
  record {
    header_cache = refl;
    val_set = refl;
    all_validators = refl;
    last_block_processed = refl;
    locked = refl;
    readers = refl;
    calls = refl;
    screen = refl;
    printed = refl;
  },
)
