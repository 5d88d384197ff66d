-- ===== src/History/Download/Blocks.antt =====
-- One block of a download (history/history.go): what the tables hold after it, on every end.
use native.Mathlib.Nat.{add-zero, add-suc}
use mathlib.Core.List.{map-append}
use mathlib.Core.Path.{subst}
use native.Mathlib.Numerals.{add-one}
use signers.Base.{
  ℕ, zero, suc, ◌+◌, ◌^◌, ◌≤◌, ◌<◌, ◌≡◌, sym, ap, ◌∙◌, List, [], ◌∷◌, ◌++◌, map, append_assoc,
  arith, leb, Bool-cases, inl, inr,
}
use signers.Base.Int.{pos}
use signers.Base.Exec.{ok}
use signers.Base.Fallible.{Try, unchecked, succeed, ◌>>=◌, ◌>>◌}
use signers.Base.Ends.{Ends, Ends-bind, Ends-weaken}
use signers.Redt.Types.{Header, SignerData, Geth}
use signers.Redt.Node.{Node}
use signers.Redt.Node.Cache.{CacheLaws}
use signers.Redt.Node.Chain.{Chain, Coherent}
use signers.Redt.Report.{signer_data_for_block_number}
use signers.Redt.Report.Data.{OfChain, StillCoherent, signer_data-Ends}
use signers.History.Sqlite.{BlockRow, Tables, Sqlite, SqliteLaws}
use signers.History.Store.{block_row, insert_header, commit_tx, begin_tx}
use signers.History.Store.Effects.{Same, Begun, Blocks, begin_tx-Ends, insert_header-Ends}
use signers.History.Download.{State, on_node, on_db, copy_block, count_insert, inserts_per_commit}
use signers.History.Download.Lifts.{on_node-Ends, on_db-Ends}

-- The node serves one chain, the cache and the engine keep their laws, and every commit succeeds.
pub record Reliable (g : Geth) (q : Sqlite) (chain : ℕ → Header) : Type 0 where
  pub cache : CacheLaws g
  pub world : Chain g chain
  pub engine : SqliteLaws q
  pub commits : (d : q.Db) → (q.commit d).0 ≡ ok tt

-- The block numbers of a table, in the order of insertion.
abbrev pub numbers : Tables → List ℕ
numbers t = map (λ (row : BlockRow). row.number) t.blocks

-- The first k values of a sequence.
abbrev pub taken : (ℕ → ℕ) → ℕ → List ℕ
taken f zero = []
taken f (suc k) = taken f k ++ f k ∷ []

module _ (g : Geth) (q : Sqlite) (chain : ℕ → Header) (reliable : Reliable g q chain) (old : List ℕ)
    (f : ℕ → ℕ) where
  open reliable use {engine.{committed}, engine.{working}}

  -- The first j blocks of the download are committed.
  abbrev pub Saved : ℕ → State g q → Type 0
  Saved j s = numbers (committed s.db) ≡ old ++ taken f j

  -- Of the download `saved` blocks are committed, and `count` more are in the transaction.
  abbrev pub Copied : ℕ → ℕ → State g q → Type 0
  Copied saved count s =
      Coherent g chain s.node.header_cache
      × Saved saved s
      × (numbers (working s.db) ≡ old ++ taken f (saved + count))

  -- Some of the first n blocks are committed, none left out in between.
  abbrev pub Partial : ℕ → State g q → Type 0
  Partial n s = (j : ℕ) × (j ≤ n) × Saved j s

  pub row_is_next :
      (n : ℕ) (h : Header) (data' : SignerData)
      → n < 2 ^ 63
      → h ≡ chain n
      → (block_row q h data' 0).number ≡ n
  row_is_next n h data' low same = rw same (rw (reliable.world.numbered n) (omega arith))

  Saved-of_eq : (j : ℕ) (s t : State g q) → committed t.db ≡ committed s.db → Saved j s → Saved j t
  Saved-of_eq j s t same saves = ap numbers same ∙ saves

  numbers_grow :
      (saved count n : ℕ) (s t : State g q) (row : BlockRow)
      → row.number ≡ n
      → n ≡ f (saved + count)
      → numbers (working s.db) ≡ old ++ taken f (saved + count)
      → (working t.db).blocks ≡ (working s.db).blocks ++ row ∷ []
      → numbers (working t.db) ≡ old ++ taken f (saved + suc count)
  numbers_grow saved count n s t row is_n next holds added =
      let number = λ (r : BlockRow). r.number in
      ap (map number) added
      ∙ map-append number (working s.db).blocks (row ∷ [])
      ∙ rw (holds, is_n, next, add-suc)
          (append_assoc old (taken f (saved + count)) (f (saved + count) ∷ []))

  inserted :
      (saved count n : ℕ) (h : Header) (data' : SignerData) (s t : State g q)
      → n < 2 ^ 63
      → n ≡ f (saved + count)
      → h ≡ chain n
      → Copied saved count s
      → Blocks q reliable.engine s.db ((working s.db).blocks ++ block_row q h data' 0 ∷ []) tt t.db
      → t.node ≡ s.node
      → Copied saved (suc count) t
  inserted saved count n h data' s t low next same (coherent, saves, holds) (kept, added) node = (
    subst (λ (x : Node g). Coherent g chain x.header_cache) (sym node) coherent,
    Saved-of_eq saved s t kept saves,
    numbers_grow saved count n s t (block_row q h data' 0) (row_is_next n h data' low same) next
        holds added,
  )

  pub copy_block-Ends :
      (n saved count : ℕ) (s : State g q)
      → n < 2 ^ 63
      → n ≡ f (saved + count)
      → Copied saved count s
      → Ends (λ _ t. Copied saved (suc count) t) (Saved saved) (copy_block g q (pos n) s)
  unfolding copy_block
  copy_block-Ends n saved count s low next (coherent, saves, holds) =
      let fetch = signer_data_for_block_number g (pos n) in
      let fetched = signer_data-Ends g chain reliable.cache reliable.world n s.node low coherent in
      Ends-bind (λ p t. OfChain g chain n p t.node × (t.db ≡ s.db))
        (λ _ t. Copied saved (suc count) t) (Saved saved) (on_node g q fetch) _ s
        (Ends-weaken (λ p t. OfChain g chain n p t.node × (t.db ≡ s.db))
          (λ p t. OfChain g chain n p t.node × (t.db ≡ s.db))
          (λ t. StillCoherent g chain t.node × (t.db ≡ s.db)) (Saved saved) (on_node g q fetch s)
          (on_node-Ends g q (OfChain g chain n) (StillCoherent g chain) fetch s fetched)
          (λ _ t h. h) (λ t h. Saved-of_eq saved s t (ap committed h.1) saves))
        λ p t found.
          let insert = insert_header q p.0 p.1 0 in
          let blocks = (working t.db).blocks ++ block_row q p.0 p.1 0 ∷ [] in
          let same_tables = λ (d : q.Db) (e : d ≡ s.db). ap numbers (ap working e) ∙ holds in
          let now : Copied saved count t = (
            found.0.1,
            Saved-of_eq saved s t (ap committed found.1) saves,
            same_tables t.db found.1,
          ) in
          Ends-weaken (λ u x. Blocks q reliable.engine t.db blocks u x.db × (x.node ≡ t.node))
            (λ _ x. Copied saved (suc count) x)
            (λ x. Same q reliable.engine t.db x.db × (x.node ≡ t.node)) (Saved saved)
            (on_db g q insert t)
            (on_db-Ends g q (Blocks q reliable.engine t.db blocks) (Same q reliable.engine t.db)
              insert t (insert_header-Ends q reliable.engine p.0 p.1 0 t.db))
            (λ _ x h. inserted saved count n p.0 p.1 t x low next found.0.0 now h.0 h.1)
            (λ x h. Saved-of_eq saved t x h.0 now.1)

  -- After the next block, with the count that is left for the next commit.
  abbrev pub Next : ℕ → ℕ → State g q → Type 0
  Next done next t = (saved : ℕ) × Copied saved next t × (saved + next ≡ done)

  Begun-anew :
      (done : ℕ) (s t : State g q)
      → Coherent g chain s.node.header_cache
      → Saved done s
      → Begun q reliable.engine s.db tt t.db
      → t.node ≡ s.node
      → Next done 0 t
  Begun-anew done s t coherent saves (same, fresh) node = (
    done,
    (
      subst (λ (x : Node g). Coherent g chain x.header_cache) (sym node) coherent,
      Saved-of_eq done s t same saves,
      rw add-zero (ap numbers fresh ∙ saves),
    ),
    omega arith,
  )

  commit_and_begin :
      (saved count : ℕ) (s : State g q)
      → Copied saved (suc count) s
      → Ends
          (λ next t. Next (suc (saved + count)) next t)
          (Partial (suc (saved + count)))
          ((unchecked (on_db g q (commit_tx q)) >> (on_db g q (begin_tx q) >> succeed 0)) s)
  unfolding commit_tx
  commit_and_begin saved count s (coherent, saves, holds) =
      let done = suc (saved + count) in
      let t : State g q = record s { db = (q.commit s.db).1 } in
      let all_saved : Saved done t =
        subst (λ j. Saved j t) (add-suc saved count)
          (ap numbers (reliable.engine.commit_done s.db (reliable.commits s.db)) ∙ holds) in
      Ends-bind (λ u x. Begun q reliable.engine t.db u x.db × (x.node ≡ t.node))
        (λ next x. Next done next x) (Partial done) (on_db g q (begin_tx q)) _ t
        (Ends-weaken (λ u x. Begun q reliable.engine t.db u x.db × (x.node ≡ t.node))
          (λ u x. Begun q reliable.engine t.db u x.db × (x.node ≡ t.node))
          (λ x. Same q reliable.engine t.db x.db × (x.node ≡ t.node)) (Partial done)
          (on_db g q (begin_tx q) t)
          (on_db-Ends g q (Begun q reliable.engine t.db) (Same q reliable.engine t.db) (begin_tx q)
            t (begin_tx-Ends q reliable.engine t.db))
          (λ _ x h. h) (λ x h. (done, omega arith, Saved-of_eq done t x h.0 all_saved)))
        λ _ x h. Begun-anew done t x coherent all_saved h.0 h.1

  pub count_insert-Ends :
      (saved count : ℕ) (s : State g q)
      → Copied saved (suc count) s
      → Ends
          (λ next t. Next (suc (saved + count)) next t)
          (Partial (suc (saved + count)))
          (count_insert g q count s)
  unfolding count_insert
  count_insert-Ends saved count s copied = elim (Bool-cases (leb inserts_per_commit (count + 1))) [
    | inl full ↦ rw full (commit_and_begin saved count s copied)
    | inr room ↦ rw room (saved, rw add-one copied, omega arith)
  ]

  widen-Partial : (m n : ℕ) (t : State g q) → m ≤ n → Partial m t → Partial n t
  widen-Partial m n t h (j, le, saves) = (j, omega arith, saves)

  -- One round of either loop, and the rounds after it.
  pub round-Ends :
      (n saved count total : ℕ) (s : State g q) (Q : Unit {0} → State g q → Type 0)
      (rest : ℕ → Try (State g q) (Unit {0}))
      → n < 2 ^ 63
      → n ≡ f (saved + count)
      → suc (saved + count) ≤ total
      → Copied saved count s
      → ((next : ℕ) (t : State g q)
          → Next (suc (saved + count)) next t
          → Ends Q (Partial total) (rest next t))
      → Ends Q (Partial total) ((copy_block g q (pos n) >> (count_insert g q count >>= rest)) s)
  round-Ends n saved count total s Q rest low next within copied others =
      let widen = λ (t : State g q) (h : Partial (suc (saved + count)) t).
        widen-Partial (suc (saved + count)) total t within h in
      Ends-bind (λ _ t. Copied saved (suc count) t) Q (Partial total) (copy_block g q (pos n)) _ s
        (Ends-weaken (λ _ t. Copied saved (suc count) t) (λ _ t. Copied saved (suc count) t)
          (Saved saved) (Partial total) (copy_block g q (pos n) s)
          (copy_block-Ends n saved count s low next copied) (λ _ t h. h)
          (λ t h. (saved, omega arith, h)))
        λ _ t h.
          Ends-bind (λ next t. Next (suc (saved + count)) next t) Q (Partial total)
            (count_insert g q count) rest t
            (Ends-weaken (λ next t. Next (suc (saved + count)) next t)
              (λ next t. Next (suc (saved + count)) next t) (Partial (suc (saved + count)))
              (Partial total) (count_insert g q count t) (count_insert-Ends saved count t h)
              (λ _ t h. h) widen)
            others
