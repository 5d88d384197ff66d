-- ===== src/History/Download/Backward.antt =====
-- HistoryBackwards (history/history.go) as a whole, on a database that holds blocks.
use mathlib.Core.Path.{subst}
use signers.Base.{
  ℕ, ◌+◌, ◌*◌, ◌-◌, ◌^◌, ◌<◌, ◌≡◌, refl, sym, ap, ◌∙◌, ◌++◌, true, false, some, arith, append-nil,
}
use signers.Base.Int.{pos}
use signers.Base.Text.{Text}
use signers.Base.Exec.{ok, returned, exited}
use signers.Base.Ends.{Ends}
use signers.Redt.Types.{Header, Geth}
use signers.Redt.Node.{Node}
use signers.Redt.Create.{new_redt_node}
use signers.Redt.Create.Fresh.{StartsEmpty, new_node-Coherent}
use signers.Redt.Monitor.Steady.{Story, Steady}
use signers.History.Sqlite.{Sqlite, SqliteLaws}
use signers.History.Store.{open_blockchain}
use signers.History.Download.{State, backwards_open, history_backwards}
use signers.History.Download.Blocks.{Reliable, numbers, taken, Saved, Partial}
use signers.History.Download.Empty.{open_keeps_blocks}
use signers.History.Download.Steps.{Willing}
use signers.History.Download.Downwards.{below, backwards_open-no_gap}
use signers.History.Download.Completes.{NoGenesisSeal, backwards_open-exits}
use signers.History.Download.Whole.{Opens, opened, download-Ends, download-exits}

module _ (g : Geth) (q : Sqlite) (chain : ℕ → Header) (reliable : Reliable g q chain)
    (empty : StartsEmpty g) where
  open reliable use {engine.{committed}}

  -- HistoryBackwards, when it connects to a node, on a database whose largest block number, once
  -- it is opened, is positive and whose smallest, l, is positive, with commits that succeed: when
  -- it returns without an error, the committed blocks are the old ones and then l - 1 down to 0 in
  -- this order, so the genesis block is reached. On every other end they are the old ones and then
  -- the first of these blocks, with none left out in between.
  pub history_backwards-no_gap :
      (s : State g q) (dsn : Text) (n : Node g) (m l : ℕ)
      → 0 < m
      → 0 < l
      → l < 2 ^ 63
      → new_redt_node g true ≡ returned (ok n)
      → q.select_max (open_blockchain q dsn s.db).1 ≡ ok (some (pos m))
      → q.select_min (open_blockchain q dsn s.db).1 ≡ ok (some (pos l))
      → let old = numbers (committed s.db) in
        Ends
          (λ _ t. Saved g q chain reliable old (below (l - 1)) l t)
          (Partial g q chain reliable old (below (l - 1)) l)
          (history_backwards g q true false dsn s)
  unfolding history_backwards
  history_backwards-no_gap s dsn n m l some_block positive low made largest smallest =
      let f = below (l - 1) in
      let old = numbers (committed s.db) in
      let same = ap numbers (open_keeps_blocks g q reliable.engine dsn s.db) in
      download-Ends g q (Saved g q chain reliable old f l) (Partial g q chain reliable old f l)
        (backwards_open g q) dsn s n made
        (λ t saves. ap numbers (reliable.engine.close_keeps t.db) ∙ saves)
        (λ t (j, le, saves). (j, le, ap numbers (reliable.engine.close_keeps t.db) ∙ saves))
        (0, omega arith, same ∙ sym (append-nil old))
        (subst
          (λ rows.
            Ends (λ _ t. Saved g q chain reliable rows f l t) (Partial g q chain reliable rows f l)
              (backwards_open g q (opened g q dsn n s)))
          same
          (backwards_open-no_gap g q chain reliable (opened g q dsn n s) m l some_block positive low
            (new_node-Coherent g chain empty n made) largest smallest))

module _ (g : Geth) (q : Sqlite) (story : Story) (steady : Steady g story) (laws : SqliteLaws q)
    (willing : Willing q laws) (empty : StartsEmpty g) (opens : Opens q) where
  open story use {chain}
  open laws use {committed}

  -- HistoryBackwards, when it connects to a node that serves its chain and whose seals are
  -- recovered, but those of the genesis block, which has none, with a database that accepts every
  -- statement but a second row of a block, whose largest block number, once it is opened, is
  -- positive and whose smallest, l, is positive: it ends the process when it comes to the genesis
  -- block. Of the blocks l - 1 down to 1 the full hundreds are committed after the old ones, in this
  -- order, and the rest is lost.
  pub history_backwards-exits :
      (s : State g q) (dsn : Text) (n : Node g) (m l : ℕ)
      → 0 < m
      → 0 < l
      → l < 2 ^ 63
      → NoGenesisSeal g q story steady laws willing
      → new_redt_node g true ≡ returned (ok n)
      → q.select_max (open_blockchain q dsn s.db).1 ≡ ok (some (pos m))
      → q.select_min (open_blockchain q dsn s.db).1 ≡ ok (some (pos l))
      → (t : State g q) × (hundreds : ℕ) × (lost : ℕ) × (history_backwards g q true false dsn s
          ≡ (exited, t))
        × (numbers (committed t.db)
            ≡ numbers (committed s.db) ++ taken (below (l - 1)) (100 * hundreds))
        × (100 * hundreds + lost ≡ l - 1)
        × (lost < 100)
  unfolding history_backwards
  history_backwards-exits s dsn n m l some_block positive low unsealed made largest smallest =
      let (t, hundreds, lost, exits, saved, all, few) =
        backwards_open-exits g q story steady laws willing (opened g q dsn n s) m l some_block
          positive low unsealed (new_node-Coherent g chain empty n made) largest smallest in
      (
        t,
        hundreds,
        lost,
        download-exits g q opens (backwards_open g q) dsn s t n made exits,
        saved ∙ rw (open_keeps_blocks g q laws dsn s.db) refl,
        all,
        few,
      )
