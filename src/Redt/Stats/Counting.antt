-- ===== src/Redt/Stats/Counting.antt =====
-- The counters that UpdateStatisticsForBlock keeps (redt/redt.go).
use signers.Base.{ℕ, ◌+◌, ◌%◌, ◌^◌, ◌≡◌, refl, true, false, List, [], ◌∷◌, arith, count}
use signers.Base.Int.{◌≤ℤ◌, ◌<ℤ◌}
use signers.Base.Exec.{returned, blocked}
use signers.Redt.Types.{Address, Header, block_number, Geth}
use signers.Redt.Node.{RedTNode, Node}
use signers.Redt.Stats.{increment, increment_all, signers_from_block, update_statistics_for_block}

abbrev pub IsFree : {C : Type 0} → RedTNode C → Type 0
IsFree s = (s.locked ≡ false) × (s.readers ≡ 0)

pub increment-mod :
    (m : Address → ℕ) (a v : Address) → increment m a v % 2 ^ 64 ≡ (m v + count v (a ∷ [])) % 2 ^ 64
unfolding increment count
increment-mod m a v = ground arith

pub increment_self : (m : Address → ℕ) (a : Address) → increment m a a ≡ (m a + 1) % 2 ^ 64
unfolding increment
increment_self m a = ground arith

pub increment_all-mod :
    (addrs : List Address) (m : Address → ℕ) (v : Address)
    → increment_all addrs m v % 2 ^ 64 ≡ (m v + count v addrs) % 2 ^ 64
unfolding increment_all increment count
increment_all-mod [] m v = ground arith
increment_all-mod (a ∷ addrs) m v = ground (arith, increment_all-mod addrs (increment m a) v)

-- What one counted block does to the counters, modulo the wrap of a Go int.
pub record Counts {C : Type 0} (author : Address) (signers : List Address) (s t : RedTNode C)
    : Type 0 where
  pub proposals :
      (v : Address) → t.as_proposer v % 2 ^ 64 ≡ (s.as_proposer v + count v (author ∷ [])) % 2 ^ 64
  pub signatures :
      (v : Address) → t.as_signer v % 2 ^ 64 ≡ (s.as_signer v + count v signers) % 2 ^ 64

-- The fields that a block leaves alone.
pub record Keeps {C : Type 0} (s t : RedTNode C) : Type 0 where
  pub header_cache : t.header_cache ≡ s.header_cache
  pub val_set : t.val_set ≡ s.val_set
  pub all_validators : t.all_validators ≡ s.all_validators
  pub last_block_processed : t.last_block_processed ≡ s.last_block_processed
  pub locked : t.locked ≡ s.locked
  pub readers : t.readers ≡ s.readers
  pub calls : t.calls ≡ s.calls
  pub screen : t.screen ≡ s.screen
  pub printed : t.printed ≡ s.printed

module _ (g : Geth) (h : Header) (s : Node g) {author : Address} {signers : List Address}
    (recovered : signers_from_block g h ≡ returned (author, signers)) where
  abbrev updated : Node g
  updated = (update_statistics_for_block g h s).1

  -- The counters of a block above the last one processed.
  abbrev pub counted : Node g
  counted = record s {
    as_proposer = increment s.as_proposer author;
    as_signer = increment_all signers s.as_signer;
  }

  pub counted-Counts : Counts author signers s counted
  counted-Counts = record {
    proposals = increment-mod s.as_proposer author;
    signatures = increment_all-mod signers s.as_signer;
  }

  pub counted-Keeps : Keeps s counted
  counted-Keeps = record {
    header_cache = refl;
    val_set = refl;
    all_validators = refl;
    last_block_processed = refl;
    locked = refl;
    readers = refl;
    calls = refl;
    screen = refl;
    printed = refl;
  }

  pub update_fresh :
      IsFree s
      → s.last_block_processed <ℤ block_number h
      → update_statistics_for_block g h s ≡ (returned (author, signers), counted)
  unfolding update_statistics_for_block
  update_fresh free fresh = rw recovered (ground arith)

  pub update_stale :
      IsFree s
      → block_number h ≤ℤ s.last_block_processed
      → update_statistics_for_block g h s ≡ (returned (author, signers), s)
  unfolding update_statistics_for_block
  update_stale free stale = rw recovered (ground arith)

  pub update_locked : s.locked ≡ true → update_statistics_for_block g h s ≡ (blocked, s)
  unfolding update_statistics_for_block
  update_locked held = rw (recovered, held)

module _ (g : Geth) (h : Header) (s : Node g) {author : Address} {signers : List Address}
    (recovered : signers_from_block g h ≡ returned (author, signers)) (free : IsFree s) where
  -- A block whose seals are recovered and whose number is above the last one processed is counted
  -- once: one proposal for its author, one signature for each occurrence of a signer, modulo 2^64.
  -- Nothing else of the node changes, and the lock is free again.
  pub update-Counts :
      s.last_block_processed <ℤ block_number h
      → let (o, t) = update_statistics_for_block g h s in
        (o ≡ returned (author, signers)) × Counts author signers s t × Keeps s t
  update-Counts fresh =
      rw (update_fresh g h s recovered free fresh)
        (refl, counted-Counts g h s recovered, counted-Keeps g h s recovered)

  -- The number of the last block processed is not advanced: a block that is handed over twice
  -- counts twice for each of its signers.
  pub update_again_counts_twice :
      s.last_block_processed <ℤ block_number h
      → (v : Address)
      → (update_statistics_for_block g h (update_statistics_for_block g h s).1).1.as_signer v
          % 2 ^ 64
        ≡ (s.as_signer v + count v signers + count v signers) % 2 ^ 64
  update_again_counts_twice fresh v =
      let t = counted g h s recovered in
      rw (update_fresh g h s recovered free fresh) (
        rw (update_fresh g h t recovered free fresh) (
          omega (
            arith,
            increment_all-mod signers s.as_signer v,
            increment_all-mod signers t.as_signer v,
          )))
