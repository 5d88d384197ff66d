-- ===== src/History/Download/Downwards.antt =====
-- HistoryBackwards (history/history.go) from a database that holds blocks.
use mathlib.Core.Path.{subst}
use signers.Base.{ℕ, zero, suc, ◌+◌, ◌-◌, ◌^◌, ◌≤◌, ◌<◌, ◌≡◌, refl, ap, ◌∙◌, List, arith, some}
use signers.Base.Int.{ℤ, pos, ◌-ℤ◌, int64, int64-prev}
use signers.Base.Exec.{ok, returned}
use signers.Base.Ends.{Ends}
use signers.Base.Fallible.{◌>>◌, unchecked}
use signers.Redt.Types.{Header, Geth}
use signers.Redt.Node.Chain.{Coherent}
use signers.History.Sqlite.{Sqlite}
use signers.History.Store.{max_block_number, min_block_number, begin_tx, commit_tx}
use signers.History.Download.{State, on_db, copy_down, start_below, start_down, backwards_open}
use signers.History.Download.Blocks.{Reliable, numbers, Saved, Copied, Partial, round-Ends}
use signers.History.Download.Contiguous.{Full, download-Ends}

-- n, n - 1, …
abbrev pub below : ℕ → ℕ → ℕ
below n j = n - j

module _ (g : Geth) (q : Sqlite) (chain : ℕ → Header) (reliable : Reliable g q chain)
    (old : List ℕ) where
  pub previous :
      (n done : ℕ)
      → suc done ≤ n
      → n < 2 ^ 63
      → int64 (pos (below n done) -ℤ pos 1) ≡ pos (below n (suc done))
  previous n done within low =
      let e : n - done - 1 ≡ n - suc done = omega arith in
      int64-prev (n - done) (omega arith) (omega arith) ∙ ap pos e

  next_below : (n done done' : ℕ) → done' ≡ suc done → below n (suc done) ≡ below n done'
  next_below n done done' same = omega arith

  copy_down-Ends :
      (n k saved count : ℕ) (i : ℤ) (s : State g q)
      → (0 < k → i ≡ pos (below n (saved + count)))
      → saved + count + k ≡ suc n
      → n < 2 ^ 63
      → Copied g q chain reliable old (below n) saved count s
      → Ends
          (λ _ t. Full g q chain reliable old (below n) (suc n) t)
          (Partial g q chain reliable old (below n) (suc n))
          (copy_down g q k i count s)
  unfolding copy_down
  copy_down-Ends n zero saved count i s at all low copied = (saved, count, copied, omega arith)
  copy_down-Ends n (suc k) saved count i s at all low copied = rw (at (omega arith)) (
      round-Ends g q chain reliable old (below n) (below n (saved + count)) saved count (suc n) s
        (λ _ t. Full g q chain reliable old (below n) (suc n) t) _ (omega arith) refl (omega arith)
        copied
        λ next t (saved', copied', same).
          copy_down-Ends n k saved' next _ t
            (λ more.
              previous n (saved + count) (omega arith) low
              ∙ ap pos (next_below n (saved + count) (saved' + next) same))
            (omega arith) low copied')

module _ (g : Geth) (q : Sqlite) where
  pub start_down-eq :
      (s : State g q) (m l : ℕ)
      → 0 < m
      → 0 < l
      → l < 2 ^ 63
      → q.select_min s.db ≡ ok (some (pos l))
      → start_down g q (pos m) s ≡ (returned (ok (pos (l - 1))), s)
  unfolding start_down min_block_number start_below
  start_down-eq s m l some_block positive low smallest = ground (arith, int64-prev l positive low)

module _ (g : Geth) (q : Sqlite) (chain : ℕ → Header) (reliable : Reliable g q chain) where
  start_zero : (n : ℕ) → n ≡ below n (0 + 0)
  start_zero n = omega arith

  -- Once the node is connected and the database open, from a database whose largest block number
  -- is positive and whose smallest, l, is positive, with commits that succeed: when the download
  -- of HistoryBackwards returns without an error, the committed blocks are the old ones and then
  -- l - 1 down to 0 in this order, so the genesis block is reached. On every other end they are
  -- the old ones and then the first of these blocks, with none left out in between.
  pub backwards_open-no_gap :
      (s : State g q) (m l : ℕ)
      → 0 < m
      → 0 < l
      → l < 2 ^ 63
      → Coherent g chain s.node.header_cache
      → q.select_max s.db ≡ ok (some (pos m))
      → q.select_min s.db ≡ ok (some (pos l))
      → let old = numbers (reliable.engine.committed s.db) in
        Ends
          (λ _ t. Saved g q chain reliable old (below (l - 1)) l t)
          (Partial g q chain reliable old (below (l - 1)) l)
          (backwards_open g q s)
  unfolding backwards_open max_block_number
  backwards_open-no_gap s m l some_block positive low coherent largest smallest =
      let old = numbers (reliable.engine.committed s.db) in
      let n = l - 1 in
      let all : suc n ≡ l = omega arith in
      rw largest (
        rw (start_down-eq g q s m l some_block positive low smallest) (
          subst
            (λ total.
              Ends (λ _ t. Saved g q chain reliable old (below n) total t)
                (Partial g q chain reliable old (below n) total)
                ((on_db g q (begin_tx q)
                    >> (copy_down g q (suc n) (pos n) 0 >> unchecked (on_db g q (commit_tx q))))
                  s))
            all
            (download-Ends g q chain reliable old (below n) (suc n) s
              (copy_down g q (suc n) (pos n) 0) coherent refl
              λ u copied.
                copy_down-Ends g q chain reliable old n (suc n) 0 0 (pos n) u
                  (λ _. ap pos (start_zero n)) (omega arith) (omega arith) copied)))
