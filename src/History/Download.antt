-- ===== src/History/Download.antt =====
-- history/history.go: the download of the chain, upwards and downwards, and the statistics.
pub mod Downwards
pub mod Whole
pub mod Forward
pub mod Backward
pub mod Upwards
pub mod Contiguous
pub mod Lifts
pub mod Blocks
pub mod Empty
pub mod Completes
pub mod Steps
pub mod Rounds
use signers.Base.{
  ℕ, zero, suc, ◌+◌, ◌≡◌, Bool, true, false, List, [], ◌∷◌, Option, none, some, leb, if◌then◌else◌,
}
use signers.Base.Int.{ℤ, pos, negsuc, pos_part, ◌+ℤ◌, ◌-ℤ◌, eqb_ℤ, leb_ℤ, int64, rounds}
use signers.Base.Text.{Text}
use signers.Base.Exec.{
  Error, Result, ok, err, genesis_reached, Outcome, returned, exited, panicked, blocked, after,
  deferred,
}
use signers.Base.Fallible.{Try, succeed, fail, proceed, unchecked, unchecked_result, ◌>>=◌, ◌>>◌}
use signers.Redt.Types.{Header, SignerData, Geth}
use signers.Redt.Node.{RedTNode, Node, current_block_number}
use signers.Redt.Create.{new_redt_node}
use signers.Redt.Report.{signer_data_for_block_number}
use signers.History.Sqlite.{Sqlite}
use signers.History.Store.{
  open_blockchain, min_block_number, max_block_number, timestamp_for_number, begin_tx, commit_tx,
  insert_header,
}

-- The connection to the node and to the database.
pub record Session (Cache Db : Type 0) : Type 0 where
  pub node : RedTNode Cache
  pub db : Db

abbrev pub inserts_per_commit : ℕ
inserts_per_commit = 100

-- What showStats prints: the difference of the numbers, and both ends with their times.
pub record Stats : Type 0 where
  pub blocks : ℤ
  pub min_number : ℤ
  pub min_time : ℤ
  pub max_number : ℤ
  pub max_time : ℤ

module _ (g : Geth) (q : Sqlite) where
  abbrev pub State : Type 0
  State = Session g.Cache q.Db

  abbrev pub on_node {ℓ} : {A : Type ℓ} → Try (Node g) A → Try State A
  on_node m s = let (o, n) = m s.node in (o, record s { node = n })

  abbrev pub on_db {ℓ} : {A : Type ℓ} → Try q.Db A → Try State A
  on_db m s = let (o, d) = m s.db in (o, record s { db = d })

  abbrev pub close_db : State → State
  close_db s = record s { db = q.close s.db }

  connected : Outcome (Result (Node g)) → Try State (Unit {0})
  connected (returned (ok n)) s = (returned (ok tt), record s { node = n })
  connected (returned (err e)) s = (returned (err e), s)
  connected exited s = (exited, s)
  connected panicked s = (panicked, s)
  connected blocked s = (blocked, s)

  unfoldable pub connect : Bool → Try State (Unit {0})
  unfolding new_redt_node connected
  connect dialed = connected (new_redt_node g dialed)

  -- One block: fetched and inserted.
  unfoldable pub copy_block : ℤ → Try State (Unit {0})
  copy_block i = do
    (h, data') ← on_node (signer_data_for_block_number g i)
    on_db (insert_header q h data' 0)

  -- After a block: commit at the hundredth insert and begin anew. The new count is returned, and
  -- what Commit returns is dropped.
  unfoldable pub count_insert : ℕ → Try State ℕ
  count_insert count =
      if leb inserts_per_commit (count + 1)
      then (do unchecked (on_db (commit_tx q)); on_db (begin_tx q); succeed 0)
      else succeed (count + 1)

  -- `for i := startNumber; i <= currentNumber; i++`, over the rounds that are left.
  unfoldable pub copy_up : ℕ → ℤ → ℕ → Try State (Unit {0})
  copy_up zero i count = succeed tt
  copy_up (suc k) i count = do
    copy_block i
    next ← count_insert count
    copy_up k (int64 (i +ℤ pos 1)) next

  -- `for i := startNumber; i >= 0; i--`, over the rounds that are left.
  unfoldable pub copy_down : ℕ → ℤ → ℕ → Try State (Unit {0})
  copy_down zero i count = succeed tt
  copy_down (suc k) i count = do
    copy_block i
    next ← count_insert count
    copy_down k (int64 (i -ℤ pos 1)) next

  -- Where the upward download starts: 0 is taken for an empty database.
  abbrev start_up : ℤ → ℤ → ℤ
  start_up max_number current =
      if eqb_ℤ max_number (pos 0) then current else int64 (max_number +ℤ pos 1)

  unfoldable pub forward_open : Try State (Unit {0})
  forward_open = do
    max_number ← on_db (max_block_number q)
    current ← on_node (current_block_number g)
    on_db (begin_tx q)
    copy_up (rounds (start_up max_number current) current) (start_up max_number current) 0
    unchecked (on_db (commit_tx q))

  -- The last number of the downward download is 0.
  abbrev pub rounds_down : ℤ → ℕ
  rounds_down (pos n) = suc n
  rounds_down (negsuc n) = zero

  unfoldable pub start_below : ℤ → Try State ℤ
  start_below min_number =
      if eqb_ℤ min_number (pos 0)
      then fail genesis_reached
      else succeed (int64 (min_number -ℤ pos 1))

  unfoldable pub start_down : ℤ → Try State ℤ
  unfolding current_block_number min_block_number start_below
  start_down num_records =
      if eqb_ℤ num_records (pos 0)
      then on_node (current_block_number g)
      else (do min_number ← on_db (min_block_number q); start_below min_number)

  unfoldable pub backwards_open : Try State (Unit {0})
  backwards_open = do
    num_records ← on_db (max_block_number q)
    start ← start_down num_records
    on_db (begin_tx q)
    copy_down (rounds_down start) start 0
    unchecked (on_db (commit_tx q))

  unfoldable pub stats_open : Try q.Db Stats
  stats_open = do
    min_number ← min_block_number q
    min_time ← timestamp_for_number q min_number
    max_number ← max_block_number q
    max_time ← timestamp_for_number q max_number
    succeed (record {
      blocks = int64 (max_number -ℤ min_number);
      min_number = min_number;
      min_time = min_time;
      max_number = max_number;
      max_time = max_time;
    })

  unfoldable pub show_stats : Text → Try q.Db Stats
  show_stats dsn = do open_blockchain q dsn; deferred q.close stats_open

  -- What follows the test of `stats`: connect, open the database, download, and close it.
  unfoldable pub download : Try State (Unit {0}) → Bool → Text → Try State (Option Stats)
  download body dialed dsn = do
    connect dialed
    on_db (open_blockchain q dsn)
    deferred close_db body
    succeed none

  unfoldable pub print_stats : Text → Try State (Option Stats)
  print_stats dsn = do printed ← on_db (show_stats dsn); succeed (some printed)

  -- `dialed` is whether rpc.Dial succeeded. The result is what was printed.
  unfoldable pub history_forward : Bool → Bool → Text → Try State (Option Stats)
  history_forward dialed stats dsn =
      if stats then print_stats dsn else download forward_open dialed dsn

  unfoldable pub history_backwards : Bool → Bool → Text → Try State (Option Stats)
  history_backwards dialed stats dsn =
      if stats then print_stats dsn else download backwards_open dialed dsn
