-- ===== src/History/Download/Lifts.antt =====
-- A call on the node or on the database as a step of a download (history/history.go).
use signers.Base.{◌≡◌, refl}
use signers.Base.Exec.{Result, ok, err, Outcome, returned, exited, panicked, blocked}
use signers.Base.Fallible.{Try}
use signers.Base.Ends.{Ends}
use signers.Redt.Types.{Geth}
use signers.Redt.Node.{Node}
use signers.History.Sqlite.{Sqlite}
use signers.History.Download.{State, on_node, on_db}

module _ (g : Geth) (q : Sqlite) where
  pub on_node-Ends :
      {A : Type 0} (P : A → Node g → Type 0) (E : Node g → Type 0) (m : Try (Node g) A)
      (s : State g q)
      → Ends P E (m s.node)
      → Ends (λ a t. P a t.node × (t.db ≡ s.db)) (λ t. E t.node × (t.db ≡ s.db)) (on_node g q m s)
  on_node-Ends {A} P E m s h = by_outcome (m s.node).0 (m s.node).1 h
    where
      by_outcome :
          (o : Outcome (Result A)) (n : Node g)
          → Ends P E (o, n)
          → Ends
              (λ a t. P a t.node × (t.db ≡ s.db))
              (λ t. E t.node × (t.db ≡ s.db))
              (o, record s { node = n })
      by_outcome (returned (ok a)) n h = (h, refl)
      by_outcome (returned (err e)) n h = (h, refl)
      by_outcome exited n h = (h, refl)
      by_outcome panicked n h = (h, refl)
      by_outcome blocked n h = (h, refl)

  pub on_db-Ends :
      {A : Type 0} (P : A → q.Db → Type 0) (E : q.Db → Type 0) (m : Try q.Db A) (s : State g q)
      → Ends P E (m s.db)
      → Ends (λ a t. P a t.db × (t.node ≡ s.node)) (λ t. E t.db × (t.node ≡ s.node)) (on_db g q m s)
  on_db-Ends {A} P E m s h = by_outcome (m s.db).0 (m s.db).1 h
    where
      by_outcome :
          (o : Outcome (Result A)) (d : q.Db)
          → Ends P E (o, d)
          → Ends
              (λ a t. P a t.db × (t.node ≡ s.node))
              (λ t. E t.db × (t.node ≡ s.node))
              (o, record s { db = d })
      by_outcome (returned (ok a)) d h = (h, refl)
      by_outcome (returned (err e)) d h = (h, refl)
      by_outcome exited d h = (h, refl)
      by_outcome panicked d h = (h, refl)
      by_outcome blocked d h = (h, refl)
