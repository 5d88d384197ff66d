-- ===== src/Redt/Monitor.antt =====
-- redt/redt.go: the two programs that watch the chain, by polling and by notifications.
pub mod Advance
pub mod Start
pub mod Notified
pub mod Coverage
pub mod Steady
use signers.Base.{ℕ, zero, suc, Bool, true, false, List, [], ◌∷◌, if◌then◌else◌}
use signers.Base.Int.{ℤ, pos, negsuc, ◌+ℤ◌, ◌-ℤ◌, eqb_ℤ, int64, rounds}
use signers.Base.Exec.{
  Result, ok, err, Outcome, returned, exited, panicked, blocked, Exec, pure, stop, gets, modify,
  continue, or_exit, ◌>>=◌, ◌>>◌,
}
use signers.Redt.Types.{Header, block_number, Geth}
use signers.Redt.Node.{RedTNode, Node, header_by_number}
use signers.Redt.Stats.{initialize_stats}
use signers.Redt.Report.{display_signers_for_block_number}

-- The variables of the polling loop.
pub record Latest : Type 0 where
  pub number : ℤ
  pub timestamp : ℕ

-- The variables of the loop over notifications.
pub record Watch : Type 0 where
  pub is_first : Bool
  pub timestamp : ℕ

module _ (g : Geth) where
  -- `for i := latestNumber + 1; i <= currentNumber; i++`, over the rounds that are left.
  unfoldable pub display_blocks : ℕ → ℤ → ℕ → Exec (Node g) ℕ
  unfolding display_signers_for_block_number
  display_blocks zero i latest = pure latest
  display_blocks (suc k) i latest = do
    timestamp ← display_signers_for_block_number g i latest
    display_blocks k (int64 (i +ℤ pos 1)) timestamp

  advance_to : Latest → ℤ → Exec (Node g) Latest
  unfolding display_blocks rounds
  advance_to latest current = do
    let first = int64 (latest.number +ℤ pos 1)
    timestamp ← display_blocks (rounds first current) first latest.timestamp
    pure (record { number = current; timestamp = timestamp })

  -- One round of the endless loop, after the sleep.
  unfoldable pub poll : Latest → Exec (Node g) Latest
  unfolding header_by_number advance_to
  poll latest = do
    reply ← header_by_number g (negsuc 0)
    header ← or_exit reply
    let current = block_number header
    if eqb_ℤ current latest.number then pure latest else advance_to latest current

  unfoldable pub poll_loop : ℕ → Latest → Exec (Node g) Latest
  unfolding poll
  poll_loop zero latest = pure latest
  poll_loop (suc k) latest = do next ← poll latest; poll_loop k next

  -- MonitorSigners on a connected node, for the given number of rounds of its loop.
  unfoldable pub monitor_signers : ℤ → ℕ → Exec (Node g) Latest
  unfolding initialize_stats header_by_number display_signers_for_block_number poll_loop
  monitor_signers num_blocks k = do
    initialize_stats g num_blocks
    reply ← header_by_number g (negsuc 0)
    newest ← or_exit reply
    reply' ← header_by_number g (int64 (block_number newest -ℤ pos 0))
    header ← or_exit reply'
    display_signers_for_block_number g (block_number header) header.time
    poll_loop k (record { number = block_number header; timestamp = header.time })

  note_first : Watch → Result Header → Exec (Node g) Watch
  note_first w (ok h) = pure (record { is_first = false; timestamp = h.time })
  note_first w (err e) = pure w

  -- One notification, whose number is a uint64.
  unfoldable pub watch : Watch → ℕ → Exec (Node g) Watch
  unfolding header_by_number note_first display_signers_for_block_number
  watch w number =
      if w.is_first
      then (do reply ← header_by_number g (int64 (pos number)); note_first w reply)
      else (do
        timestamp ← display_signers_for_block_number g (int64 (pos number)) w.timestamp
        pure (record w { timestamp = timestamp }))

  -- MonitorSignersWS on a connected node, for the notifications that arrive.
  unfoldable pub watch_all : List ℕ → Watch → Exec (Node g) Watch
  unfolding watch
  watch_all [] w = pure w
  watch_all (n ∷ ns) w = do next ← watch w n; watch_all ns next

  unfoldable pub monitor_signers_ws : List ℕ → Exec (Node g) Watch
  unfolding watch_all
  monitor_signers_ws notified = watch_all notified (record { is_first = true; timestamp = 0 })
