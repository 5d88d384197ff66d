-- ===== src/Serve/Pages.antt =====
-- What a window of `signers serve` shows, said of the chain alone, and one round that shows it
-- (serve/serve.go).
use signers.Base.{ℕ, ◌+◌, ◌%◌, ◌^◌, ◌<◌, ◌≡◌, List, [], ◌∷◌, ◌++◌, map, Option, none, some, arith}
use signers.Base.Int.{pos, int64}
use signers.Base.Exec.{Outcome, returned}
use signers.Redt.Types.{Address, ValInfo, Geth}
use signers.Redt.Node.{RedTNode, Node}
use signers.Redt.Stats.{increment, increment_all}
use signers.Redt.Report.{Report, report_row, elapsed_since, next_proposer}
use signers.Redt.Monitor.Steady.{Story}
use signers.Redt.Monitor.Notified.{tally}

-- The counters are 64-bit patterns.
pub record Words {C : Type 0} (s : RedTNode C) : Type 0 where
  pub proposals : (v : Address) → s.as_proposer v < 2 ^ 64
  pub signatures : (v : Address) → s.as_signer v < 2 ^ 64

-- The entry of an address, and an empty one where there is none.
abbrev pub entry_of : Option ValInfo → ValInfo
entry_of none = record { operator = []; enode = []; address = 0; signatures = 0; proposals = 0 }
entry_of (some info) = info

abbrev pub address_or_zero : Outcome Address → Address
address_or_zero o = elim o [ returned a ↦ a | _ ↦ 0 ]

-- The validator whose turn is after `author`.
abbrev pub turn_after : Address → List Address → Address
turn_after author vals = address_or_zero (next_proposer author vals)

module _ (g : Geth) (story : Story) (s : Node g) where
  open story use {chain, author, signers}

  abbrev pub entry : Address → ValInfo
  entry v = entry_of (s.all_validators v)

  -- The node `s` after these blocks were counted.
  abbrev pub after_blocks : List ℕ → Node g
  after_blocks ns = record s {
    as_proposer = λ v. (s.as_proposer v + tally (λ i. author i ∷ []) v ns) % 2 ^ 64;
    as_signer = λ v. (s.as_signer v + tally signers v ns) % 2 ^ 64;
  }

  -- What is shown of block n, the last of the counted blocks `ns`, when the block shown before it
  -- has the time `latest`.
  abbrev pub report_of : List ℕ → ℕ → ℕ → Report
  report_of ns latest n = record {
    number = (chain n).number;
    elapsed = elapsed_since (chain n).time latest;
    timestamp = int64 (pos (chain n).time);
    operator = (entry (author n)).operator;
    author_count = (s.as_proposer (author n) + tally (λ i. author i ∷ []) (author n) ns) % 2 ^ 64;
    author_address = author n;
    next_proposer_operator = (entry (turn_after (author n) s.val_set)).operator;
    gas_limit = (chain n).gas_limit;
    gas_used = (chain n).gas_used;
    signers = map (λ v. report_row g (author n) (signers n) (after_blocks ns) (entry v)) s.val_set;
  }

  -- The reports of the blocks `ns`, of which `before` were counted already.
  abbrev pub reports_of : List ℕ → ℕ → List ℕ → List Report
  reports_of before latest [] = []
  reports_of before latest (n ∷ ns) =
      report_of (before ++ n ∷ []) latest n ∷ reports_of (before ++ n ∷ []) (chain n).time ns

  -- The time of the last of the blocks.
  abbrev pub time_after : ℕ → List ℕ → ℕ
  time_after latest [] = latest
  time_after latest (n ∷ ns) = time_after (chain n).time ns

pub tally-append :
    (f : ℕ → List Address) (v : Address) (ms ns : List ℕ)
    → tally f v (ms ++ ns) ≡ tally f v ms + tally f v ns
tally-append f v [] ns = omega arith
tally-append f v (m ∷ ms) ns = omega (arith, tally-append f v ms ns)

pub increment_all-lt :
    (addrs : List Address) (m : Address → ℕ) (v : Address)
    → m v < 2 ^ 64
    → increment_all addrs m v < 2 ^ 64
unfolding increment_all increment
increment_all-lt [] m v low = low
increment_all-lt (a ∷ addrs) m v low = increment_all-lt addrs (increment m a) v (ground arith)
