-- ===== src/History/Download/Upwards.antt =====
-- HistoryForward (history/history.go) from a database that holds blocks.
use signers.Base.{ℕ, suc, ◌+◌, ◌-◌, ◌^◌, ◌<◌, ◌≡◌, refl, sym, ap, arith, some}
use mathlib.Core.Path.{subst}
use signers.Base.Int.{pos, negsuc, int64-next, rounds-pos}
use signers.Base.Exec.{Result, ok, Outcome, returned, continue, pure}
use signers.Base.Ends.{Ends}
use signers.Redt.Types.{Header, Geth}
use signers.Redt.Node.{Node, header_by_number, number_of_result, current_block_number}
use signers.Redt.Node.Cache.{CacheLaws}
use signers.Redt.Node.Chain.{Chain, Coherent, newest-Sound}
use signers.History.Sqlite.{Sqlite}
use signers.History.Store.{max_block_number}
use signers.History.Download.{State, copy_up, start_up, forward_open}
use signers.History.Download.Blocks.{Reliable, numbers, Saved, Partial}
use signers.History.Download.Contiguous.{copy_up-Ends, download-Ends}

module _ (g : Geth) (chain : ℕ → Header) (laws : CacheLaws g) (world : Chain g chain) where
  state_of_number :
      (o : Outcome (Result Header)) (t : Node g)
      → (continue o (λ header. pure (number_of_result g header)) t).1 ≡ t
  state_of_number (returned r) t = refl
  state_of_number _ t = refl

  pub current_keeps :
      (n : Node g)
      → Coherent g chain n.header_cache
      → Coherent g chain (current_block_number g n).1.header_cache
  unfolding current_block_number
  current_keeps n coherent =
      let (kept, found) = newest-Sound g chain laws world n coherent in
      subst (λ (t : Node g). Coherent g chain t.header_cache)
        (sym
          (state_of_number (header_by_number g (negsuc 0) n).0 (header_by_number g (negsuc 0) n).1))
        kept

module _ (g : Geth) (q : Sqlite) where
  pub start_up-pos : (m c : ℕ) → 0 < m → m + 1 < 2 ^ 63 → start_up g q (pos m) (pos c) ≡ pos (suc m)
  start_up-pos m c positive low = ground (arith, int64-next m low)

module _ (g : Geth) (q : Sqlite) (chain : ℕ → Header) (reliable : Reliable g q chain) where
  sum_zero : (m : ℕ) → suc m ≡ suc m + (0 + 0)
  sum_zero m = omega arith

  -- Once the node is connected and the database open, from a database whose largest block number
  -- m is positive, on a node whose newest block is c, with commits that succeed: when the download
  -- of HistoryForward returns without an error, the committed blocks are the old ones and then
  -- m + 1 to c in this order. On every other end (an error of the engine or of the node, a panic,
  -- an exit) they are the old ones and then the first of these blocks, with none left out in
  -- between.
  pub forward_open-no_gap :
      (s : State g q) (m c : ℕ)
      → 0 < m
      → m + 1 < 2 ^ 63
      → c + 1 < 2 ^ 63
      → Coherent g chain s.node.header_cache
      → q.select_max s.db ≡ ok (some (pos m))
      → (current_block_number g s.node).0 ≡ returned (ok (pos c))
      → let old = numbers (reliable.engine.committed s.db) in
        Ends
          (λ _ t. Saved g q chain reliable old (◌+◌ (suc m)) (c - m) t)
          (Partial g q chain reliable old (◌+◌ (suc m)) (c - m))
          (forward_open g q s)
  unfolding forward_open max_block_number
  forward_open-no_gap s m c positive low low' coherent largest current =
      let t : State g q = record s { node = (current_block_number g s.node).1 } in
      rw (largest, current)
        (rw (start_up-pos g q m c positive low, rounds-pos c m)
          (download-Ends g q chain reliable (numbers (reliable.engine.committed s.db)) (◌+◌ (suc m))
            (c - m) t (copy_up g q (c - m) (pos (suc m)) 0)
            (current_keeps g chain reliable.cache reliable.world s.node coherent) refl
            λ u copied.
              copy_up-Ends g q chain reliable (numbers (reliable.engine.committed s.db)) (suc m)
                (c - m) 0 0 (c - m) (pos (suc m)) u (ap pos (sum_zero m)) (omega arith)
                (omega arith) copied))
