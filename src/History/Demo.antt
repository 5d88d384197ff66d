-- ===== src/History/Demo.antt =====
-- A database in memory, for the tests of history/history.go.
use mathlib.Core.Path.{subst}
use signers.Base.{
  ◌≤◌, ap, map, All, arith, ℕ, ◌+◌, ◌≡◌, ◌≢◌, refl, Bool, true, false, List, [], ◌∷◌, ◌++◌, Option,
  none, some, ltb, ◌==◌, if◌then◌else◌,
}
use signers.Base.Text.{Text}
use signers.Base.Int.{ℤ, pos, pos_part}
use signers.Base.Exec.{failed, Result, ok, err}
use signers.History.Sqlite.{BlockRow, SignerRow, Tables, Sqlite, SqliteLaws}

pub record Memory : Type 0 where
  pub committed : Tables
  pub working : Tables
  pub is_open : Bool

abbrev pub no_tables : Tables
no_tables = record { blocks = []; signers = [] }

abbrev larger : ℕ → Option ℤ → ℕ
larger n none = n
larger n (some m) = if ltb n (pos_part m) then pos_part m else n

abbrev smaller : ℕ → Option ℤ → ℕ
smaller n none = n
smaller n (some m) = if ltb (pos_part m) n then pos_part m else n

abbrev largest : List BlockRow → Option ℤ
largest [] = none
largest (row ∷ rows) = some (pos (larger row.number (largest rows)))

abbrev smallest : List BlockRow → Option ℤ
smallest [] = none
smallest (row ∷ rows) = some (pos (smaller row.number (smallest rows)))

-- The rows that `WHERE number=?` selects: of the blocks one at most, of the signers all.
abbrev row_of : ℕ → List BlockRow → Option BlockRow
row_of n [] = none
row_of n (row ∷ rows) = if row.number == n then some row else row_of n rows

abbrev signers_of : ℕ → List SignerRow → List Text
signers_of n [] = []
signers_of n (row ∷ rows) =
    let rest = signers_of n rows in if row.number == n then row.address ∷ rest else rest

abbrev if_open : {A : Type 0} → Memory → Result A → Result A
if_open d r = if d.is_open then r else err failed

abbrev time_of : Option BlockRow → Option ℤ
time_of none = none
time_of (some row) = some (pos row.time)

abbrev pub memory : Sqlite
memory = record {
  Db = Memory;
  open_file = λ name d. (ok tt, record d { is_open = true });
  exec_create = λ table d. (ok tt, d);
  select_min = λ d. ok (smallest d.committed.blocks);
  select_max = λ d. ok (largest d.committed.blocks);
  select_time = λ n d. ok (time_of (row_of (pos_part n) d.committed.blocks));
  select_block = λ n d. if_open d (ok (row_of (pos_part n) d.committed.blocks));
  select_signers = λ n d. if_open d (ok (signers_of (pos_part n) d.committed.signers));
  begin = λ d. (ok tt, record d { working = d.committed });
  prepare = λ table d. (ok tt, d);
  insert_block = λ row d.
      (ok tt, record d { working = record d.working { blocks = d.working.blocks ++ row ∷ [] } });
  insert_signer = λ row d.
      (ok tt, record d { working = record d.working { signers = d.working.signers ++ row ∷ [] } });
  commit = λ d. (ok tt, record d { committed = d.working });
  close = λ d. record d { is_open = false };
}

pub largest_of_none :
    (rows : List BlockRow) (m : ℤ) → rows ≡ [] → Result.ok (largest rows) ≢ ok (some m)
largest_of_none [] m none_there e = cc
largest_of_none (row ∷ rows) m none_there e = absurd (cc)

abbrev pub memory_laws : SqliteLaws memory
memory_laws = record {
  committed = λ d. d.committed;
  working = λ d. d.working;
  open_keeps = λ name d. refl;
  create_keeps = λ table d. refl;
  begin_keeps = λ d. refl;
  begin_starts = λ d done. refl;
  prepare_keeps = λ table d. refl;
  prepare_works = λ table d. refl;
  insert_block_keeps = λ row d. refl;
  insert_block_works = λ row d done. refl;
  insert_signer_keeps = λ row d. refl;
  insert_signer_works = λ row d done. refl;
  commit_done = λ d done. refl;
  close_keeps = λ d. refl;
  max_of_none = λ d m none_there. largest_of_none d.committed.blocks m none_there;
}

abbrev pub row : ℕ → BlockRow
row n = record {
  number = n;
  proposer = [];
  proposer_count = 0;
  gas_limit = 30;
  gas_used = 20;
  time = 100 + n;
  num_txs = 0;
  parent_hash = [];
  tx_hash = [];
  receipt_hash = [];
}

abbrev pub holding : List BlockRow → Memory
holding rows = record {
  committed = record { blocks = rows; signers = [] };
  working = no_tables;
  is_open = true;
}

-- The largest and the smallest number bound the others.
top_of : Option ℤ → ℕ
top_of none = 0
top_of (some z) = pos_part z

larger-bounds : (n : ℕ) (o : Option ℤ) → (n ≤ larger n o) × (top_of o ≤ larger n o)
unfolding top_of
larger-bounds n none = (omega arith, omega arith)
larger-bounds n (some z) = (ground arith, ground arith)

All-trans-le : (xs : List ℕ) (a b : ℕ) → a ≤ b → All (λ x. x ≤ a) xs → All (λ x. x ≤ b) xs
All-trans-le [] a b le h = tt
All-trans-le (x ∷ xs) a b le (h, hs) = (omega arith, All-trans-le xs a b le hs)

All-trans-ge : (xs : List ℕ) (a b : ℕ) → b ≤ a → All (λ x. a ≤ x) xs → All (λ x. b ≤ x) xs
All-trans-ge [] a b le h = tt
All-trans-ge (x ∷ xs) a b le (h, hs) = (omega arith, All-trans-ge xs a b le hs)

abbrev row_numbers : List BlockRow → List ℕ
row_numbers rows = map (λ (row : BlockRow). row.number) rows

largest-top : (rows : List BlockRow) → All (λ n. n ≤ top_of (largest rows)) (row_numbers rows)
unfolding top_of
largest-top [] = tt
largest-top (row ∷ rows) =
    let (here, others) = larger-bounds row.number (largest rows) in
    (here, All-trans-le (row_numbers rows) (top_of (largest rows)) _ others (largest-top rows))

pub largest_bounds :
    (rows : List BlockRow) (m : ℕ)
    → Result.ok (largest rows) ≡ ok (some (pos m))
    → All (λ n. n ≤ m) (row_numbers rows)
unfolding top_of
largest_bounds rows m e =
    let same : largest rows ≡ some (pos m) = cc in
    subst (λ k. All (λ n. n ≤ k) (row_numbers rows)) (ap top_of same) (largest-top rows)

smaller-bounds :
    (n : ℕ) (o : Option ℤ)
    → (smaller n o ≤ n) × (smaller n o ≤ (elim o [ none ↦ n | some z ↦ pos_part z ]))
smaller-bounds n none = (omega arith, omega arith)
smaller-bounds n (some z) = (ground arith, ground arith)

smallest-bottom : (rows : List BlockRow) → All (λ n. top_of (smallest rows) ≤ n) (row_numbers rows)
unfolding top_of
smallest-bottom [] = tt
smallest-bottom (row ∷ []) = (omega arith, tt)
smallest-bottom (row ∷ other ∷ rows) =
    let (here, others) = smaller-bounds row.number (smallest (other ∷ rows)) in
    (
      here,
      All-trans-ge (row_numbers (other ∷ rows)) (top_of (smallest (other ∷ rows))) _ others
          (smallest-bottom (other ∷ rows)),
    )

pub smallest_bounds :
    (rows : List BlockRow) (l : ℕ)
    → Result.ok (smallest rows) ≡ ok (some (pos l))
    → All (λ n. l ≤ n) (row_numbers rows)
unfolding top_of
smallest_bounds rows l e =
    let same : smallest rows ≡ some (pos l) = cc in
    subst (λ k. All (λ n. k ≤ n) (row_numbers rows)) (ap top_of same) (smallest-bottom rows)
