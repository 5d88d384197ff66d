-- ===== src/Redt/Stats.antt =====
-- redt/redt.go: the signers of a block and the counters of proposals and signatures.
pub mod Deadlock
pub mod Counting
pub mod Unlocks
use signers.Base.{ℕ, zero, suc, ◌+◌, ◌%◌, ◌^◌, Bool, false, List, [], ◌∷◌, ◌==◌, if◌then◌else◌}
use signers.Base.Int.{ℤ, pos, negsuc, ◌+ℤ◌, ◌-ℤ◌, leb_ℤ, int64, rounds}
use signers.Base.Text.{Text}
use signers.Base.Exec.{
  Result, ok, err, Outcome, returned, exited, panicked, blocked, Exec, pure, stop, gets, modify,
  continue, or_exit, ◌>>=◌, ◌>>◌,
}
use signers.Redt.Types.{Address, Header, IstanbulExtra, block_number, Geth}
use signers.Redt.Node.{RedTNode, Node, with_lock, header_by_number}
use signers.Redt.Create.{zero_all}

-- `m[a] += 1` on a map of Go ints: a missing key counts from 0, and the sum wraps.
unfoldable pub increment : (Address → ℕ) → Address → Address → ℕ
increment m a b = if b == a then (m b + 1) % 2 ^ 64 else m b

unfoldable pub increment_all : List Address → (Address → ℕ) → Address → ℕ
unfolding increment
increment_all [] m = m
increment_all (a ∷ addrs) m = increment_all addrs (increment m a)

module _ (g : Geth) where
  open g use {
    extract_extra, filtered_header, rlp_encode, keccak256, signature_address,
    prepare_committed_seal, header_hash,
  }

  unfoldable pub sig_hash : Header → Text
  sig_hash h = keccak256 (rlp_encode (filtered_header h false))

  abbrev add_signer : Address → Outcome (List Address) → Outcome (List Address)
  add_signer a (returned addrs) = returned (a ∷ addrs)
  add_signer a exited = exited
  add_signer a panicked = panicked
  add_signer a blocked = blocked

  -- The loop over the committed seals; a seal that cannot be recovered ends the process.
  unfoldable pub recover_seals : Text → List Text → Outcome (List Address)
  recover_seals proposal_seal [] = returned []
  recover_seals proposal_seal (seal ∷ seals) = elim (signature_address proposal_seal seal) [
    | ok a ↦ add_signer a (recover_seals proposal_seal seals)
    | err e ↦ exited
  ]

  abbrev with_author : Address → Outcome (List Address) → Outcome (Address × List Address)
  with_author a (returned addrs) = returned (a, addrs)
  with_author a exited = exited
  with_author a panicked = panicked
  with_author a blocked = blocked

  recover_author : Header → IstanbulExtra → Outcome (Address × List Address)
  unfolding sig_hash recover_seals
  recover_author h extra = elim (signature_address (sig_hash h) extra.seal) [
    | ok author ↦
        with_author author
          (recover_seals (prepare_committed_seal (header_hash h)) extra.committed_seal)
    | err e ↦ exited
  ]

  unfoldable pub signers_from_block : Header → Outcome (Address × List Address)
  unfolding recover_author
  signers_from_block h = elim (extract_extra h) [
    | ok extra ↦ recover_author h extra
    | err e ↦ exited
  ]

  -- The part under the lock.
  unfoldable pub count_block :
      Header → Address × List Address → Exec (Node g) (Address × List Address)
  unfolding increment increment_all
  count_block h (author, signers) s =
      if leb_ℤ (block_number h) s.last_block_processed then (returned (author, signers), s) else (
        returned (author, signers),
        record s {
          as_proposer = increment s.as_proposer author;
          as_signer = increment_all signers s.as_signer;
        },
      )

  unfoldable pub update_statistics_for_block : Header → Exec (Node g) (Address × List Address)
  unfolding signers_from_block count_block
  update_statistics_for_block h = do
    found ← stop (signers_from_block h)
    with_lock (count_block h found)

  -- The loop of InitializeStats, over the rounds that are left.
  unfoldable pub replay_blocks : ℕ → ℤ → Exec (Node g) (Unit {0})
  unfolding header_by_number update_statistics_for_block
  replay_blocks zero i = pure tt
  replay_blocks (suc k) i = do
    reply ← header_by_number g i
    header ← or_exit reply
    update_statistics_for_block header
    replay_blocks k (int64 (i +ℤ pos 1))

  replay_from : ℤ → ℤ → Exec (Node g) (Unit {0})
  unfolding replay_blocks rounds
  replay_from old current = do
    replay_blocks (rounds old current) old
    modify (λ s. record s { last_block_processed = current })

  replay_last : ℤ → Exec (Node g) (Unit {0})
  unfolding header_by_number replay_from
  replay_last num_blocks = do
    reply ← header_by_number g (negsuc 0)
    header ← or_exit reply
    let current = block_number header
    replay_from (int64 (current -ℤ num_blocks)) current

  reset_counters : Node g → Node g
  unfolding zero_all
  reset_counters s = record s {
    as_proposer = zero_all s.val_set s.as_proposer;
    as_signer = zero_all s.val_set s.as_signer;
  }

  -- The whole function holds the lock, also while it calls UpdateStatisticsForBlock.
  unfoldable pub initialize_stats : ℤ → Exec (Node g) (Unit {0})
  unfolding reset_counters replay_last
  initialize_stats num_blocks = with_lock (do
    modify reset_counters
    if leb_ℤ num_blocks (pos 0) then pure tt else replay_last num_blocks)
