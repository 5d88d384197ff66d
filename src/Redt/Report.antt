-- ===== src/Redt/Report.antt =====
-- redt/redt.go: the next proposer, and the two displays of a block (terminal and web page).
pub mod Panics
pub mod Answer
pub mod Unlocks
pub mod Data
pub mod Display
pub mod RoundRobin
use signers.Base.{
  ℕ, zero, suc, ◌+◌, ◌-◌, ◌%◌, ◌^◌, Bool, true, false, List, [], ◌∷◌, ◌++◌, map, Option, none, some,
  length, get_elem?, ltb, ◌==◌, if◌then◌else◌, contains,
}
use signers.Base.Int.{ℤ, pos, int64, signed64, pos_part, neg_part}
use signers.Base.Text.{Text, codes, print, decimal, text_eq}
use signers.Base.Exec.{
  Result, ok, err, Outcome, returned, exited, panicked, blocked, Exec, pure, stop, gets, modify,
  continue, or_exit, ◌>>=◌, ◌>>◌,
}
use signers.Redt.Types.{Address, Header, SignerData, ValInfo, Geth}
use signers.Redt.Node.{
  RedTNode, Node, Cell, Line, Shown, with_lock, with_rlock, header_by_number, validators,
  validator_info,
}
use signers.Redt.Stats.{signers_from_block, update_statistics_for_block}

-- Index of the first validator that is `author`, counted from `i`.
unfoldable pub index_from : ℕ → Address → List Address → Option ℕ
index_from i author [] = none
index_from i author (v ∷ vs) = if author == v then some i else index_from (suc i) author vs

next_index_of : Option ℕ → ℕ → ℕ
next_index_of none n = 0
next_index_of (some i) n = (i + 1) % n

-- The index that the round-robin loop leaves; 0 for an author outside the set.
unfoldable pub next_index : Address → List Address → ℕ
unfolding index_from next_index_of
next_index author val_set = next_index_of (index_from 0 author val_set) (length val_set)

-- An index out of range and a nil pointer panic.
abbrev pub or_panic {ℓ} : {A : Type ℓ} → Option A → Outcome A
or_panic none = panicked
or_panic (some a) = returned a

unfoldable pub next_proposer : Address → List Address → Outcome Address
unfolding next_index
next_proposer author val_set = or_panic (get_elem? val_set (next_index author val_set))

-- uint64 subtraction.
abbrev pub elapsed_since : ℕ → ℕ → ℕ
elapsed_since current latest = (current + 2 ^ 64 - latest) % 2 ^ 64

-- fmt's %v of a Go int, given by its 64-bit pattern.
unfoldable pub print_int : ℕ → Text
unfolding signed64 print
print_int w = elim (signed64 w) [ pos n ↦ decimal n | ℤ.negsuc n ↦ codes "-" ++ decimal (n + 1) ]

-- A counter of the web page: red at zero, and a plain badge where `current` holds.
unfoldable pub badge : ℕ → Bool → Text
unfolding print_int
badge n true = codes "<span class='w3-badge'>" ++ print_int n ++ codes "</span>"
badge n false =
    if n == 0
    then codes "<span class='w3-badge w3-red'>" ++ print_int n ++ codes "</span>"
    else print_int n

pub record Row : Type 0 where
  pub author_count : Text
  pub signer_count : Text
  pub operator : Text
  pub address : Address

-- The map that SignersForHeader returns, by its keys.
pub record Report : Type 0 where
  pub number : ℕ
  pub elapsed : ℕ
  pub timestamp : ℤ
  pub operator : Text
  pub author_count : ℕ
  pub author_address : Address
  pub next_proposer_operator : Text
  pub gas_limit : ℕ
  pub gas_used : ℕ
  pub signers : List Row

module _ (g : Geth) where
  open g use {address_hex}

  unfoldable pub report_row : Address → List Address → Node g → ValInfo → Row
  unfolding badge
  report_row author signers s item = record {
    author_count =
        badge (s.as_proposer item.address)
          (text_eq (address_hex author) (address_hex item.address));
    signer_count = badge (s.as_signer item.address) (contains item.address signers);
    operator = item.operator;
    address = item.address;
  }

  terminal_line : Address → List Address → Node g → ValInfo → Line
  terminal_line author signers s item = record {
    author = record {
      count = s.as_proposer item.address;
      red = s.as_proposer item.address == 0;
      mark = text_eq (address_hex author) (address_hex item.address);
    };
    signer = record {
      count = s.as_signer item.address;
      red = s.as_signer item.address == 0;
      mark = contains item.address signers;
    };
    operator = item.operator;
    address = item.address;
  }

  -- The loop over the validators, with a nil ValInfo of one that `enodes` does not list.
  unfoldable pub for_validators {ℓ} :
      {A : Type ℓ} → (ValInfo → A) → List Address → Exec (Node g) (List A)
  unfolding validator_info
  for_validators row [] = pure []
  for_validators row (v ∷ vs) = do
    info ← gets (λ s. validator_info g s v)
    item ← stop (or_panic info)
    rows ← for_validators row vs
    pure (row item ∷ rows)

  unfoldable pub next_operator : Address → Exec (Node g) Text
  unfolding next_proposer validator_info
  next_operator author = do
    vals ← gets (validators g)
    next ← stop (next_proposer author vals)
    info ← gets (λ s. validator_info g s next)
    item ← stop (or_panic info)
    pure item.operator

  -- What SignersForHeader reads under the read lock.
  unfoldable pub read_report : Header → ℕ → Address → List Address → Text → Exec (Node g) Report
  unfolding for_validators report_row validators validator_info
  read_report h latest author signers next = do
    info ← gets (λ s. validator_info g s author)
    oper ← stop (or_panic info)
    s ← gets (λ t. t)
    rows ← for_validators (report_row author signers s) (validators g s)
    pure (record {
      number = h.number;
      elapsed = elapsed_since h.time latest;
      timestamp = int64 (pos h.time);
      operator = oper.operator;
      author_count = s.as_proposer author;
      author_address = author;
      next_proposer_operator = next;
      gas_limit = h.gas_limit;
      gas_used = h.gas_used;
      signers = rows;
    })

  unfoldable pub signers_for_header : Header → ℕ → Exec (Node g) (Report × ℕ)
  unfolding update_statistics_for_block next_operator read_report
  signers_for_header h latest = do
    (author, signers) ← update_statistics_for_block g h
    next ← next_operator author
    report ← with_rlock (read_report h latest author signers next)
    pure (report, h.time)

  -- What DisplaySignersForBlockNumber does after the update: it takes no lock.
  unfoldable pub show_block : ℤ → Header → ℕ → Address → List Address → Exec (Node g) ℕ
  unfolding next_operator for_validators terminal_line validators validator_info
  show_block number h latest author signers = do
    next_operator author
    info ← gets (λ s. validator_info g s author)
    oper ← stop (or_panic info)
    s ← gets (λ t. t)
    lines ← for_validators (terminal_line author signers s) (validators g s)
    modify (λ t. record t {
      screen =
          t.screen
          ++ (record {
            number = number;
            elapsed = elapsed_since h.time latest;
            late = ltb 5 (elapsed_since h.time latest);
            timestamp = int64 (pos h.time);
            operator = oper.operator;
            author_count = s.as_proposer author;
            author = author;
            gas_limit = h.gas_limit;
            gas_used = h.gas_used;
            lines = lines;
          })
            ∷ [];
    })
    pure h.time

  unfoldable pub display_signers_for_block_number : ℤ → ℕ → Exec (Node g) ℕ
  unfolding header_by_number update_statistics_for_block show_block
  display_signers_for_block_number number latest = do
    reply ← header_by_number g number
    h ← or_exit reply
    (author, signers) ← update_statistics_for_block g h
    show_block number h latest author signers

  pub signer_data : Address × List Address → SignerData
  signer_data (author, signers) = record {
    proposer = address_hex author;
    signers = map address_hex signers;
  }

  data_of_header : Result Header → Exec (Node g) (Result (Header × SignerData))
  unfolding signers_from_block signer_data
  data_of_header (err e) = pure (err e)
  data_of_header (ok h) = do found ← stop (signers_from_block g h); pure (ok (h, signer_data found))

  unfoldable pub signer_data_for_block_number : ℤ → Exec (Node g) (Result (Header × SignerData))
  unfolding header_by_number data_of_header
  signer_data_for_block_number number = do reply ← header_by_number g number; data_of_header reply
