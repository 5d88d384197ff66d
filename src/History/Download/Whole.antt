-- ===== src/History/Download/Whole.antt =====
-- HistoryForward and HistoryBackwards (history/history.go) as a whole, from the connection to the
-- deferred close.
use signers.Base.{◌≡◌, refl, true, Option, none}
use signers.Base.Text.{Text}
use signers.Base.Exec.{
  Result, ok, err, Outcome, returned, exited, panicked, blocked, deferred, after,
}
use signers.Base.Fallible.{Try, proceed, succeed, ◌>>◌}
use signers.Base.Ends.{Ends, Ends-bind}
use signers.Redt.Types.{Geth}
use signers.Redt.Node.{Node}
use signers.Redt.Create.{new_redt_node}
use signers.History.Sqlite.{TableName, blockchain_table, signers_table, Sqlite}
use signers.History.Store.{or_default, open_blockchain}
use signers.History.Download.{State, connected, connect, close_db, Stats, download}

-- The database accepts that it is opened and its tables are created.
pub record Opens (q : Sqlite) : Type 0 where
  pub opens : (name : Text) (d : q.Db) → (q.open_file name d).0 ≡ ok tt
  pub creates : (table : TableName) (d : q.Db) → (q.exec_create table d).0 ≡ ok tt

module _ (q : Sqlite) where
  pub open_blockchain-ok :
      (opens : Opens q) (dsn : Text) (d : q.Db) → (open_blockchain q dsn d).0 ≡ returned (ok tt)
  unfolding open_blockchain
  open_blockchain-ok opens dsn d =
      let d1 = (q.open_file (or_default dsn) d).1 in
      let d2 = (q.exec_create blockchain_table d1).1 in
      rw (opens.opens (or_default dsn) d)
        (rw (opens.creates blockchain_table d1) (rw (opens.creates signers_table d2) refl))

module _ (g : Geth) (q : Sqlite) where
  -- The state in which a download starts: the node that was made, and the database that was opened.
  abbrev pub opened : Text → Node g → State g q → State g q
  opened dsn n s = record s { node = n; db = (open_blockchain q dsn s.db).1 }

  connect-made :
      (s : State g q) (n : Node g)
      → new_redt_node g true ≡ returned (ok n)
      → connect g q true s ≡ (returned (ok tt), record s { node = n })
  unfolding connect connected
  connect-made s n made = rw made refl

  Ends-deferred :
      (P E : State g q → Type 0) (close : State g q → State g q) (m : Try (State g q) (Unit {0}))
      (s : State g q)
      → ((t : State g q) → P t → P (close t))
      → ((t : State g q) → E t → E (close t))
      → Ends (λ _ t. P t) E (m s)
      → Ends (λ _ t. P t) E (deferred close m s)
  Ends-deferred P E close m s keeps keeps' h = by_outcome (m s).0 (m s).1 h
    where
      by_outcome :
          (o : Outcome (Result (Unit {0}))) (t : State g q)
          → Ends (λ _ u. P u) E (o, t)
          → Ends (λ _ u. P u) E (o, after o close t)
      by_outcome (returned (ok u)) t h = keeps t h
      by_outcome (returned (err e)) t h = keeps' t h
      by_outcome exited t h = h
      by_outcome panicked t h = keeps' t h
      by_outcome blocked t h = h

  -- What holds of the ends of the body holds of the whole download, where closing the database
  -- keeps it, and where it holds if the database cannot be opened.
  pub download-Ends :
      (P E : State g q → Type 0) (body : Try (State g q) (Unit {0})) (dsn : Text) (s : State g q)
      (n : Node g)
      → new_redt_node g true ≡ returned (ok n)
      → ((t : State g q) → P t → P (close_db g q t))
      → ((t : State g q) → E t → E (close_db g q t))
      → E (opened dsn n s)
      → Ends (λ _ t. P t) E (body (opened dsn n s))
      → Ends (λ _ t. P t) E (download g q body true dsn s)
  unfolding download
  download-Ends P E body dsn s n made keeps keeps' none_saved done = rw (connect-made s n made) (
      by_outcome (open_blockchain q dsn s.db).0
        (Ends-deferred P E (close_db g q) body (opened dsn n s) keeps keeps' done))
    where
      rest : Try (State g q) (Option Stats)
      rest = deferred (close_db g q) body >> succeed none

      by_outcome :
          (o : Outcome (Result (Unit {0})))
          → Ends (λ _ t. P t) E (deferred (close_db g q) body (opened dsn n s))
          → Ends (λ _ t. P t) E (proceed o (λ _. rest) (opened dsn n s))
      by_outcome (returned (ok u)) h =
          Ends-bind (λ _ t. P t) (λ _ t. P t) E (deferred (close_db g q) body) (λ _. succeed none)
            (opened dsn n s) h (λ _ t p. p)
      by_outcome (returned (err e)) h = none_saved
      by_outcome exited h = none_saved
      by_outcome panicked h = none_saved
      by_outcome blocked h = none_saved

  -- A body that returns without an error makes the download return, with the database closed.
  pub download-returns :
      (opens : Opens q) (body : Try (State g q) (Unit {0})) (dsn : Text) (s t : State g q)
      (n : Node g)
      → new_redt_node g true ≡ returned (ok n)
      → body (opened dsn n s) ≡ (returned (ok tt), t)
      → download g q body true dsn s ≡ (returned (ok none), close_db g q t)
  unfolding download
  download-returns opens body dsn s t n made runs =
      rw (connect-made s n made) (rw (open_blockchain-ok q opens dsn s.db) (rw runs refl))

  -- A body that ends the process does so before the database is closed.
  pub download-exits :
      (opens : Opens q) (body : Try (State g q) (Unit {0})) (dsn : Text) (s t : State g q)
      (n : Node g)
      → new_redt_node g true ≡ returned (ok n)
      → body (opened dsn n s) ≡ (exited, t)
      → download g q body true dsn s ≡ (exited, t)
  unfolding download
  download-exits opens body dsn s t n made ends =
      rw (connect-made s n made) (rw (open_blockchain-ok q opens dsn s.db) (rw ends refl))
