-- ===== src/History/Download/Forward.antt =====
-- HistoryForward (history/history.go) as a whole, on a database that holds blocks.
use mathlib.Core.Path.{subst}
use signers.Base.{
  ℕ, suc, ◌+◌, ◌-◌, ◌^◌, ◌<◌, ◌≡◌, refl, sym, ap, ◌∙◌, ◌++◌, true, false, none, some, arith,
  append-nil,
}
use signers.Base.Int.{pos}
use signers.Base.Text.{Text}
use signers.Base.Exec.{ok, returned}
use signers.Base.Ends.{Ends}
use signers.Redt.Types.{Header, Geth}
use signers.Redt.Node.{Node, current_block_number}
use signers.Redt.Create.{new_redt_node}
use signers.Redt.Create.Fresh.{StartsEmpty, new_node-Coherent, new_redt_node-Unused}
use signers.Redt.Monitor.Steady.{Story, Steady}
use signers.History.Sqlite.{Sqlite, SqliteLaws}
use signers.History.Store.{open_blockchain}
use signers.History.Download.{State, forward_open, history_forward}
use signers.History.Download.Blocks.{Reliable, numbers, taken, Saved, Partial}
use signers.History.Download.Empty.{open_keeps_blocks}
use signers.History.Download.Steps.{Willing}
use signers.History.Download.Upwards.{forward_open-no_gap}
use signers.History.Download.Completes.{forward_open-completes}
use signers.History.Download.Whole.{Opens, opened, download-Ends, download-returns}

module _ (g : Geth) (q : Sqlite) (chain : ℕ → Header) (reliable : Reliable g q chain)
    (empty : StartsEmpty g) where
  open reliable use {engine.{committed}}

  -- HistoryForward, when it connects to a node whose newest block is c, on a database whose largest
  -- block number, once it is opened, is m and positive, with commits that succeed: when it returns
  -- without an error, the committed blocks are the old ones and then m + 1 to c in this order. On
  -- every other end (the database is not opened, an error of the engine or of the node, a panic, an
  -- exit) they are the old ones and then the first of these blocks, with none left out in between.
  pub history_forward-no_gap :
      (s : State g q) (dsn : Text) (n : Node g) (m c : ℕ)
      → 0 < m
      → m + 1 < 2 ^ 63
      → c + 1 < 2 ^ 63
      → new_redt_node g true ≡ returned (ok n)
      → q.select_max (open_blockchain q dsn s.db).1 ≡ ok (some (pos m))
      → (current_block_number g n).0 ≡ returned (ok (pos c))
      → let old = numbers (committed s.db) in
        Ends
          (λ _ t. Saved g q chain reliable old (◌+◌ (suc m)) (c - m) t)
          (Partial g q chain reliable old (◌+◌ (suc m)) (c - m))
          (history_forward g q true false dsn s)
  unfolding history_forward
  history_forward-no_gap s dsn n m c positive low low' made largest current =
      let f = ◌+◌ (suc m) in
      let old = numbers (committed s.db) in
      let same = ap numbers (open_keeps_blocks g q reliable.engine dsn s.db) in
      download-Ends g q (Saved g q chain reliable old f (c - m))
        (Partial g q chain reliable old f (c - m)) (forward_open g q) dsn s n made
        (λ t saves. ap numbers (reliable.engine.close_keeps t.db) ∙ saves)
        (λ t (j, le, saves). (j, le, ap numbers (reliable.engine.close_keeps t.db) ∙ saves))
        (0, omega arith, same ∙ sym (append-nil old))
        (subst
          (λ rows.
            Ends (λ _ t. Saved g q chain reliable rows f (c - m) t)
              (Partial g q chain reliable rows f (c - m)) (forward_open g q (opened g q dsn n s)))
          same
          (forward_open-no_gap g q chain reliable (opened g q dsn n s) m c positive low low'
            (new_node-Coherent g chain empty n made) largest current))

module _ (g : Geth) (q : Sqlite) (story : Story) (steady : Steady g story) (laws : SqliteLaws q)
    (willing : Willing q laws) (empty : StartsEmpty g) (opens : Opens q) where
  open story use {chain, newest}
  open laws use {committed}

  -- HistoryForward, when it connects to a node that serves its chain and whose seals are
  -- recovered, with a database that accepts every statement but a second row of a block, and whose
  -- largest block number, once it is opened, is m and positive: it returns without an error, and
  -- the committed blocks are the old ones and then m + 1 up to the block that is the newest of the
  -- node at its second call, in this order.
  pub history_forward-completes :
      (s : State g q) (dsn : Text) (n : Node g) (m : ℕ)
      → 0 < m
      → m + 1 < 2 ^ 63
      → new_redt_node g true ≡ returned (ok n)
      → q.select_max (open_blockchain q dsn s.db).1 ≡ ok (some (pos m))
      → (t : State g q) × (history_forward g q true false dsn s ≡ (returned (ok none), t))
        × (numbers (committed t.db)
            ≡ numbers (committed s.db) ++ taken (◌+◌ (suc m)) (newest 1 - m))
  unfolding history_forward
  history_forward-completes s dsn n m positive low made largest =
      let (t, runs, copied) =
        forward_open-completes g q story steady laws willing (opened g q dsn n s) m positive low
          (new_node-Coherent g chain empty n made) largest in
      (
        record t { db = q.close t.db },
        download-returns g q opens (forward_open g q) dsn s t n made runs,
        ap numbers (laws.close_keeps t.db)
            ∙ copied
            ∙ rw (open_keeps_blocks g q laws dsn s.db, (new_redt_node-Unused g true n made).1) refl,
      )
