-- ===== src/History/Download/Empty.antt =====
-- Both downloads (history/history.go) from a database without blocks.
use signers.Base.{◌≡◌, ◌≢◌, refl, ap, ◌∙◌, Bool, true, false, [], Option, none, some, arith}
use signers.Base.Int.{ℤ}
use signers.Base.Text.{Text}
use signers.Base.Exec.{
  Error, Result, ok, err, null_scan, Outcome, returned, exited, panicked, blocked,
}
use signers.Base.Fallible.{Try, proceed}
use signers.Redt.Types.{Geth}
use signers.Redt.Node.{Node}
use signers.Redt.Create.{new_redt_node}
use signers.History.Sqlite.{Tables, blockchain_table, signers_table, Sqlite, SqliteLaws}
use signers.History.Store.{scan_int, or_default, open_blockchain, max_block_number}
use signers.History.Download.{
  State, connected, connect, on_db, forward_open, backwards_open, download, history_forward,
  history_backwards,
}

abbrev pub is_success : {A : Type 0} → Outcome (Result A) → Bool
is_success (returned (ok a)) = true
is_success (returned (err e)) = false
is_success exited = false
is_success panicked = false
is_success blocked = false

module _ (g : Geth) (q : Sqlite) (laws : SqliteLaws q) where
  open laws use {committed}

  pub open_keeps_blocks :
      (dsn : Text) (d : q.Db) → committed (open_blockchain q dsn d).1 ≡ committed d
  unfolding open_blockchain
  open_keeps_blocks dsn d = ground (
    arith,
    laws.open_keeps (or_default dsn) d,
    laws.create_keeps blockchain_table (q.open_file (or_default dsn) d).1,
    laws.create_keeps signers_table
        (q.exec_create blockchain_table (q.open_file (or_default dsn) d).1).1,
  )

  null_max :
      (r : Result (Option ℤ)) → ((m : ℤ) → r ≢ ok (some m)) → (e : Error) × (scan_int r ≡ err e)
  null_max (ok (some m)) never = absurd (never m refl)
  null_max (ok none) never = (null_scan, refl)
  null_max (err e) never = (e, refl)

  max_of_empty :
      (d : q.Db)
      → (committed d).blocks ≡ []
      → (e : Error) × (max_block_number q d ≡ (returned (err e), d))
  unfolding max_block_number
  max_of_empty d empty =
      let (e, p) = null_max (q.select_max d) (λ m. laws.max_of_none d m empty) in (e, rw p)

  forward_open-empty :
      (s : State g q)
      → (committed s.db).blocks ≡ []
      → (e : Error) × (forward_open g q s ≡ (returned (err e), s))
  unfolding forward_open max_block_number
  forward_open-empty s empty =
      let (e, p) = null_max (q.select_max s.db) (λ m. laws.max_of_none s.db m empty) in (e, rw p)

  backwards_open-empty :
      (s : State g q)
      → (committed s.db).blocks ≡ []
      → (e : Error) × (backwards_open g q s ≡ (returned (err e), s))
  unfolding backwards_open max_block_number
  backwards_open-empty s empty =
      let (e, p) = null_max (q.select_max s.db) (λ m. laws.max_of_none s.db m empty) in (e, rw p)

  connected_keeps :
      (o : Outcome (Result (Node g))) (s : State g q) → (connected g q o s).1.db ≡ s.db
  unfolding connected
  connected_keeps (returned (ok n)) s = refl
  connected_keeps (returned (err e)) s = refl
  connected_keeps _ s = refl

  connect_keeps : (dialed : Bool) (s : State g q) → (connect g q dialed s).1.db ≡ s.db
  unfolding connect
  connect_keeps dialed s = connected_keeps (new_redt_node g dialed) s

  -- A run that has not returned success, and has committed nothing.
  abbrev pub Nothing : {A : Type 0} → State g q → Outcome (Result A) × State g q → Type 0
  Nothing s (o, t) = (is_success o ≡ false) × (committed t.db ≡ committed s.db)

  -- What follows a call that ended with `o` in the state `t`.
  Nothing-proceed :
      {A B : Type 0} (s t : State g q) (o : Outcome (Result A)) (rest : A → Try (State g q) B)
      → committed t.db ≡ committed s.db
      → ((a : A) → Nothing s (rest a t))
      → Nothing s (proceed o rest t)
  Nothing-proceed s t (returned (ok a)) rest same next = next a
  Nothing-proceed s t (returned (err e)) rest same next = (refl, same)
  Nothing-proceed s t exited rest same next = (refl, same)
  Nothing-proceed s t panicked rest same next = (refl, same)
  Nothing-proceed s t blocked rest same next = (refl, same)

  download-Nothing :
      (dialed : Bool) (dsn : Text) (s : State g q) (body : Try (State g q) (Unit {0}))
      → ((t : State g q)
          → (committed t.db).blocks ≡ []
          → (e : Error) × (body t ≡ (returned (err e), t)))
      → (committed s.db).blocks ≡ []
      → Nothing s (download g q body dialed dsn s)
  unfolding download
  download-Nothing dialed dsn s body fails empty =
      let t = (connect g q dialed s).1 in
      let same : committed t.db ≡ committed s.db = ap committed (connect_keeps dialed s) in
      let u = (on_db g q (open_blockchain q dsn) t).1 in
      let same' : committed u.db ≡ committed s.db = open_keeps_blocks dsn t.db ∙ same in
      let (e, p) = fails u (ap (λ (x : Tables). x.blocks) same' ∙ empty) in
      Nothing-proceed s t (connect g q dialed s).0 _ same λ _.
        Nothing-proceed s u (on_db g q (open_blockchain q dsn) t).0 _ same'
          λ _. rw p (refl, laws.close_keeps u.db ∙ same')

  -- From a database whose table of blocks is empty, neither download ever returns success, and
  -- both leave the committed tables as they were: the empty maximum is NULL, which is an error.
  pub download_of_empty :
      (dialed : Bool) (dsn : Text) (s : State g q)
      → (committed s.db).blocks ≡ []
      → Nothing s (history_forward g q dialed false dsn s)
        × Nothing s (history_backwards g q dialed false dsn s)
  unfolding history_forward history_backwards
  download_of_empty dialed dsn s empty = (
    download-Nothing dialed dsn s (forward_open g q) forward_open-empty empty,
    download-Nothing dialed dsn s (backwards_open g q) backwards_open-empty empty,
  )
