-- ===== src/History/Store.antt =====
-- history/history.go: opening the database, its transactions and its inserts.
pub mod Effects
pub mod Rows
use signers.Base.{
  ℕ, ◌%◌, ◌^◌, List, [], ◌∷◌, ◌++◌, Option, none, some, Bool, true, false, if◌then◌else◌,
}
use signers.Base.Int.{ℤ}
use signers.Base.Text.{Text, codes}
use signers.Base.Exec.{
  Error, Result, ok, err, null_scan, no_rows, Outcome, returned, exited, panicked, blocked,
}
use signers.Base.Fallible.{Try, succeed, pass, proceed, ◌>>=◌, ◌>>◌}
use signers.Redt.Types.{Header, SignerData}
use signers.History.Sqlite.{BlockRow, SignerRow, TableName, blockchain_table, signers_table, Sqlite}

abbrev pub default_db_name : Text
default_db_name = codes "./blockchain.sqlite?_journal=WAL"

abbrev pub or_default : Text → Text
or_default [] = default_db_name
or_default (c ∷ name) = c ∷ name

-- Scan of one INTEGER column into an int64: a NULL is an error.
abbrev pub scan_int : Result (Option ℤ) → Result ℤ
scan_int (ok (some n)) = ok n
scan_int (ok none) = err null_scan
scan_int (err e) = err e

-- Scan of a row that is not there.
abbrev pub scan_row : Result (Option ℤ) → Result ℤ
scan_row (ok (some n)) = ok n
scan_row (ok none) = err no_rows
scan_row (err e) = err e

module _ (q : Sqlite) where
  open q use {
    Db, open_file, exec_create, select_min, select_max, select_time, begin, prepare, insert_block,
    insert_signer, commit,
  }

  abbrev pub run {ℓ} : {A : Type ℓ} → (Db → Result A × Db) → Try Db A
  run statement d = let (r, d') = statement d in (returned r, d')

  unfoldable pub open_or_create_table : TableName → Try Db (Unit {0})
  open_or_create_table table = run (exec_create table)

  unfoldable pub open_blockchain : Text → Try Db (Unit {0})
  unfolding open_or_create_table
  open_blockchain name = do
    run (open_file (or_default name))
    open_or_create_table blockchain_table
    open_or_create_table signers_table

  unfoldable pub min_block_number : Try Db ℤ
  min_block_number d = pass (scan_int (select_min d)) d

  unfoldable pub max_block_number : Try Db ℤ
  max_block_number d = pass (scan_int (select_max d)) d

  unfoldable pub timestamp_for_number : ℤ → Try Db ℤ
  timestamp_for_number number d = pass (scan_row (select_time number d)) d

  unfoldable pub begin_tx : Try Db (Unit {0})
  begin_tx = do run begin; run (prepare blockchain_table); run (prepare signers_table)

  -- The prepared statements are closed after a commit; what Close returns is dropped.
  unfoldable pub commit_tx : Try Db (Unit {0})
  commit_tx = run commit

  -- header.Number.Uint64()
  abbrev pub row_number : Header → ℕ
  row_number h = h.number % 2 ^ 64

  abbrev pub block_row : Header → SignerData → ℕ → BlockRow
  block_row h data' num_txs = record {
    number = row_number h;
    proposer = data'.proposer;
    proposer_count = 0;
    gas_limit = h.gas_limit;
    gas_used = h.gas_used;
    time = h.time;
    num_txs = num_txs;
    parent_hash = h.parent_hash;
    tx_hash = h.tx_hash;
    receipt_hash = h.receipt_hash;
  }

  unfoldable pub insert_signers : ℕ → List Text → Try Db (Unit {0})
  insert_signers number [] = succeed tt
  insert_signers number (address ∷ rest) = do
    run (
        insert_signer
          (record { number = number; address = address; as_proposer = 0; as_signer = 0 }))
    insert_signers number rest

  unfoldable pub insert_header : Header → SignerData → ℕ → Try Db (Unit {0})
  insert_header h data' num_txs = do
    run (insert_block (block_row h data' num_txs))
    insert_signers (row_number h) data'.signers
