-- ===== src/History/Download/Contiguous.antt =====
-- The downloads (history/history.go) leave no gap: whatever ends them, the blocks that are
-- committed are the first of those that were asked for.
use signers.Base.{
  ℕ, zero, suc, ◌+◌, ◌^◌, ◌<◌, ◌≡◌, refl, sym, ap, ◌∙◌, List, ◌++◌, arith, append-nil,
}
use signers.Base.Int.{ℤ, pos, int64-next}
use signers.Base.Fallible.{Try, unchecked, ◌>>◌}
use signers.Base.Ends.{Ends, Ends-bind, Ends-weaken}
use signers.Redt.Types.{Header, Geth}
use mathlib.Core.Path.{subst}
use signers.Redt.Node.{Node}
use signers.History.Store.Effects.{Same, Begun, begin_tx-Ends}
use signers.Redt.Node.Chain.{Coherent}
use signers.History.Sqlite.{Sqlite}
use signers.History.Store.{commit_tx, begin_tx}
use signers.History.Download.{State, on_db, copy_up}
use signers.History.Download.Blocks.{Reliable, numbers, taken, Saved, Copied, Partial, round-Ends}
use signers.History.Download.Lifts.{on_db-Ends}

module _ (g : Geth) (q : Sqlite) (chain : ℕ → Header) (reliable : Reliable g q chain)
    (old : List ℕ) where
  -- At the end of a loop all blocks up to `done` are committed or in the transaction.
  abbrev pub Full : (ℕ → ℕ) → ℕ → State g q → Type 0
  Full f done t =
      (saved : ℕ) × (count : ℕ) × Copied g q chain reliable old f saved count t
      × (saved + count ≡ done)

  next_number : (first done done' : ℕ) → done' ≡ suc done → suc (first + done) ≡ first + done'
  next_number first done done' same = omega arith

  pub copy_up-Ends :
      (first k saved count total : ℕ) (i : ℤ) (s : State g q)
      → i ≡ pos (first + (saved + count))
      → saved + count + k ≡ total
      → first + total < 2 ^ 63
      → Copied g q chain reliable old (◌+◌ first) saved count s
      → Ends
          (λ _ t. Full (◌+◌ first) total t)
          (Partial g q chain reliable old (◌+◌ first) total)
          (copy_up g q k i count s)
  unfolding copy_up
  copy_up-Ends first zero saved count total i s at all low copied =
      (saved, count, copied, omega arith)
  copy_up-Ends first (suc k) saved count total i s at all low copied = rw at (
      round-Ends g q chain reliable old (◌+◌ first) (first + (saved + count)) saved count total s
        (λ _ t. Full (◌+◌ first) total t) _ (omega arith) refl (omega arith) copied
        λ next t (saved', copied', same).
          copy_up-Ends first k saved' next total _ t
            (int64-next (first + (saved + count)) (omega arith)
              ∙ ap pos (next_number first (saved + count) (saved' + next) same))
            (omega arith) low copied')

  pub Begun-ready :
      (f : ℕ → ℕ) (s t : State g q)
      → Coherent g chain s.node.header_cache
      → numbers (reliable.engine.committed s.db) ≡ old
      → Begun q reliable.engine s.db tt t.db
      → t.node ≡ s.node
      → Copied g q chain reliable old f 0 0 t
  Begun-ready f s t coherent was (same, fresh) node = (
    subst (λ (x : Node g). Coherent g chain x.header_cache) (sym node) coherent,
    ap numbers same ∙ was ∙ sym (append-nil old),
    ap numbers fresh ∙ was ∙ sym (append-nil old),
  )

  -- The last commit saves what is in the transaction.
  last_commit :
      (f : ℕ → ℕ) (total : ℕ) (t : State g q)
      → Full f total t
      → Ends
          (λ _ u. Saved g q chain reliable old f total u)
          (Partial g q chain reliable old f total)
          (unchecked (on_db g q (commit_tx q)) t)
  unfolding commit_tx
  last_commit f total t (saved, count, (coherent, saves, holds), all) =
      subst (λ j. numbers (reliable.engine.committed (q.commit t.db).1) ≡ old ++ taken f j) all
        (ap numbers (reliable.engine.commit_done t.db (reliable.commits t.db)) ∙ holds)

  nothing_saved :
      (f : ℕ → ℕ) (total : ℕ) (t : State g q)
      → numbers (reliable.engine.committed t.db) ≡ old
      → Partial g q chain reliable old f total t
  nothing_saved f total t was = (0, omega arith, was ∙ sym (append-nil old))

  -- A download: a transaction is begun, a loop copies, and the rest is committed.
  pub download-Ends :
      (f : ℕ → ℕ) (total : ℕ) (s : State g q) (copy : Try (State g q) (Unit {0}))
      → Coherent g chain s.node.header_cache
      → numbers (reliable.engine.committed s.db) ≡ old
      → ((t : State g q)
          → Copied g q chain reliable old f 0 0 t
          → Ends (λ _ u. Full f total u) (Partial g q chain reliable old f total) (copy t))
      → Ends
          (λ _ u. Saved g q chain reliable old f total u)
          (Partial g q chain reliable old f total)
          ((on_db g q (begin_tx q) >> (copy >> unchecked (on_db g q (commit_tx q)))) s)
  download-Ends f total s copy coherent was loop =
      let none_saved =
        λ (t : State g q) (same : reliable.engine.committed t.db ≡ reliable.engine.committed s.db).
          nothing_saved f total t (ap numbers same ∙ was) in
      Ends-bind (λ u x. Begun q reliable.engine s.db u x.db × (x.node ≡ s.node))
        (λ _ u. Saved g q chain reliable old f total u) (Partial g q chain reliable old f total)
        (on_db g q (begin_tx q)) _ s
        (Ends-weaken (λ u x. Begun q reliable.engine s.db u x.db × (x.node ≡ s.node))
          (λ u x. Begun q reliable.engine s.db u x.db × (x.node ≡ s.node))
          (λ x. Same q reliable.engine s.db x.db × (x.node ≡ s.node))
          (Partial g q chain reliable old f total) (on_db g q (begin_tx q) s)
          (on_db-Ends g q (Begun q reliable.engine s.db) (Same q reliable.engine s.db) (begin_tx q)
            s (begin_tx-Ends q reliable.engine s.db))
          (λ _ x h. h) (λ x h. none_saved x h.0))
        λ _ t h.
          Ends-bind (λ _ u. Full f total u) (λ _ u. Saved g q chain reliable old f total u)
            (Partial g q chain reliable old f total) copy _ t
            (loop t (Begun-ready f s t coherent was h.0 h.1)) λ _ u full. last_commit f total u full
