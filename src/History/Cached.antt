-- ===== src/History/Cached.antt =====
-- history/history.go: the signers of one block from the database, or from the node on a miss.
pub mod Misses
use signers.Base.{ℕ, zero, suc, Bool, List, [], ◌∷◌, Option, none, some, replicate}
use signers.Base.Int.{ℤ, pos_part}
use signers.Base.Text.{Text}
use signers.Base.Exec.{
  Error, Result, ok, err, not_initialised, Outcome, returned, exited, panicked, blocked, after,
  deferred,
}
use signers.Base.Fallible.{Try, succeed, fail, pass, proceed, ◌>>=◌, ◌>>◌}
use signers.Redt.Types.{Header, SignerData, Geth}
use signers.Redt.Node.{RedTNode, Node}
use signers.Redt.Report.{signer_data_for_block_number}
use signers.History.Sqlite.{BlockRow, Sqlite}
use signers.History.Store.{begin_tx, commit_tx, insert_header, open_blockchain}
use signers.History.Download.{Session, State, on_node, on_db, close_db}

-- The fields `rt` and `db`, nil or not. The mutex `mu` only makes the calls follow one another.
pub record Blockchain (Cache Db : Type 0) : Type 0 where
  pub rt : Option (RedTNode Cache)
  pub db : Option Db

-- A common.Hash that was not set.
abbrev zero_hash : Text
zero_hash = replicate 32 0

module _ (g : Geth) (q : Sqlite) where
  -- The header that is built from a row: a number is found only under the number asked for. It is not
  -- negative, since the numbers of the table are those of headers.
  header_of_row : ℤ → BlockRow → Header
  header_of_row number row = record {
    number = pos_part number;
    time = row.time;
    gas_limit = row.gas_limit;
    gas_used = row.gas_used;
    parent_hash = zero_hash;
    tx_hash = zero_hash;
    receipt_hash = zero_hash;
    extra = [];
  }

  from_row : ℤ → BlockRow → Try (State g q) (Header × SignerData)
  unfolding header_of_row
  from_row number row = do
    addresses ← on_db g q (λ d. (returned (q.select_signers number d), d))
    succeed (header_of_row number row, record { proposer = row.proposer; signers = addresses })

  store_fetched : Header × SignerData → Try (State g q) (Header × SignerData)
  unfolding insert_header commit_tx
  store_fetched (h, data') = do
    on_db g q (insert_header q h data' 0)
    on_db g q (commit_tx q)
    succeed (h, data')

  -- On a miss the database is closed when the function returns.
  pub from_network : ℤ → Try (State g q) (Header × SignerData)
  unfolding signer_data_for_block_number begin_tx store_fetched
  from_network number = do
    found ← on_node g q (signer_data_for_block_number g number)
    on_db g q (begin_tx q)
    deferred (close_db g q) (store_fetched found)

  by_row : ℤ → Option BlockRow → Try (State g q) (Header × SignerData)
  unfolding from_row from_network
  by_row number (some row) = from_row number row
  by_row number none = from_network number

  unfoldable pub look_up : ℤ → Try (State g q) (Header × SignerData)
  unfolding by_row
  look_up number = do
    row ← on_db g q (λ d. (returned (q.select_block number d), d))
    by_row number row

  abbrev back {ℓ} : {A : Type ℓ} → A × Session g.Cache q.Db → A × Blockchain g.Cache q.Db
  back (o, s) = (o, record { rt = some s.node; db = some s.db })

  with_parts :
      Option (Node g) → Option q.Db → ℤ → Try (Blockchain g.Cache q.Db) (Header × SignerData)
  unfolding look_up
  with_parts (some n) (some d) number b = back (look_up number (record { node = n; db = d }))
  with_parts none d number b = (returned (err not_initialised), b)
  with_parts (some n) none number b = (returned (err not_initialised), b)

  unfoldable pub signer_data_for_block_number_cached :
      ℤ → Try (Blockchain g.Cache q.Db) (Header × SignerData)
  unfolding with_parts
  signer_data_for_block_number_cached number b = with_parts b.rt b.db number b

  opened_result : Outcome (Result (Unit {0})) × q.Db → Outcome (Result (Blockchain g.Cache q.Db))
  opened_result (returned (ok u), d) = returned (ok (record { rt = none; db = some d }))
  opened_result (returned (err e), d) = returned (err e)
  opened_result (exited, d) = exited
  opened_result (panicked, d) = panicked
  opened_result (blocked, d) = blocked

  -- Open, with the Blockchain that it returns: `rt` is not set.
  unfoldable pub open_history : Text → q.Db → Outcome (Result (Blockchain g.Cache q.Db))
  unfolding opened_result open_blockchain
  open_history name d = opened_result (open_blockchain q name d)
