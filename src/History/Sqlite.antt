-- ===== src/History/Sqlite.antt =====
-- The tables of history/history.go, and the database engine behind them.
use signers.Base.{ℕ, ◌≡◌, ◌≢◌, List, [], ◌∷◌, ◌++◌, Option, some}
use signers.Base.Int.{ℤ}
use signers.Base.Text.{Text}
use signers.Base.Exec.{Result, ok}

-- A row of the table `blockchain`.
pub record BlockRow : Type 0 where
  pub number : ℕ  -- INTEGER PRIMARY KEY
  pub proposer : Text
  pub proposer_count : ℕ
  pub gas_limit : ℕ
  pub gas_used : ℕ
  pub time : ℕ
  pub num_txs : ℕ
  pub parent_hash : Text
  pub tx_hash : Text
  pub receipt_hash : Text

-- A row of the table `signers`.
pub record SignerRow : Type 0 where
  pub number : ℕ
  pub address : Text
  pub as_proposer : ℕ
  pub as_signer : ℕ

-- The table that a CREATE TABLE or a prepared INSERT statement is about.
pub data TableName : Type 0 where
  blockchain_table signers_table : TableName

-- database/sql over go-sqlite3, a call for each statement that history.go runs. Any of them may
-- report an error. No law is assumed here.
pub record Sqlite : Type 1 where
  pub Db : Type 0
  pub open_file : Text → Db → Result (Unit {0}) × Db
  pub exec_create : TableName → Db → Result (Unit {0}) × Db
  pub select_min : Db → Result (Option ℤ)
  pub select_max : Db → Result (Option ℤ)
  pub select_time : ℤ → Db → Result (Option ℤ)
  pub select_block : ℤ → Db → Result (Option BlockRow)
  pub select_signers : ℤ → Db → Result (List Text)
  pub begin : Db → Result (Unit {0}) × Db
  pub prepare : TableName → Db → Result (Unit {0}) × Db
  pub insert_block : BlockRow → Db → Result (Unit {0}) × Db
  pub insert_signer : SignerRow → Db → Result (Unit {0}) × Db
  pub commit : Db → Result (Unit {0}) × Db
  pub close : Db → Db

pub record Tables : Type 0 where
  pub blocks : List BlockRow
  pub signers : List SignerRow

-- What the engine documents, by two views of a database: what is committed, and what the open
-- transaction has made of it. Only a commit changes what is committed.
pub record SqliteLaws (q : Sqlite) : Type 0 where
  pub committed : q.Db → Tables
  pub working : q.Db → Tables
  pub open_keeps : (name : Text) (d : q.Db) → committed (q.open_file name d).1 ≡ committed d
  pub create_keeps :
      (table : TableName) (d : q.Db) → committed (q.exec_create table d).1 ≡ committed d
  pub begin_keeps : (d : q.Db) → committed (q.begin d).1 ≡ committed d
  pub begin_starts : (d : q.Db) → (q.begin d).0 ≡ ok tt → working (q.begin d).1 ≡ committed d
  pub prepare_keeps : (table : TableName) (d : q.Db) → committed (q.prepare table d).1 ≡ committed d
  pub prepare_works : (table : TableName) (d : q.Db) → working (q.prepare table d).1 ≡ working d
  pub insert_block_keeps :
      (row : BlockRow) (d : q.Db) → committed (q.insert_block row d).1 ≡ committed d
  pub insert_block_works :
      (row : BlockRow) (d : q.Db)
      → (q.insert_block row d).0 ≡ ok tt
      → working (q.insert_block row d).1
        ≡ record (working d) { blocks = (working d).blocks ++ row ∷ [] }
  pub insert_signer_keeps :
      (row : SignerRow) (d : q.Db) → committed (q.insert_signer row d).1 ≡ committed d
  pub insert_signer_works :
      (row : SignerRow) (d : q.Db)
      → (q.insert_signer row d).0 ≡ ok tt
      → working (q.insert_signer row d).1
        ≡ record (working d) { signers = (working d).signers ++ row ∷ [] }
  pub commit_done : (d : q.Db) → (q.commit d).0 ≡ ok tt → committed (q.commit d).1 ≡ working d
  pub close_keeps : (d : q.Db) → committed (q.close d) ≡ committed d
  pub max_of_none : (d : q.Db) (m : ℤ) → (committed d).blocks ≡ [] → q.select_max d ≢ ok (some m)
