-- ===== src/History/Store/Effects.antt =====
-- What the operations of history/history.go on the database do to its tables.
use signers.Base.{ℕ, ◌≡◌, refl, ap, ◌∙◌, List, [], ◌∷◌, ◌++◌}
use signers.Base.Text.{Text}
use signers.Base.Exec.{Result, ok, err, returned}
use signers.Base.Ends.{Ends, Ends-bind, Ends-weaken}
use signers.Redt.Types.{Header, SignerData}
use signers.History.Sqlite.{
  BlockRow, SignerRow, Tables, TableName, blockchain_table, signers_table, Sqlite, SqliteLaws,
}
use signers.History.Store.{run, row_number, block_row, begin_tx, insert_signers, insert_header}

module _ (q : Sqlite) (laws : SqliteLaws q) where
  open laws use {committed, working}

  -- A statement that always keeps the committed tables, and on success works `f` on the others.
  pub run-Ends :
      (statement : q.Db → Result (Unit {0}) × q.Db) (P : q.Db → Type 0) (E : q.Db → Type 0)
      (d : q.Db)
      → E (statement d).1
      → ((statement d).0 ≡ ok tt → P (statement d).1)
      → Ends (λ (u : Unit {0}) t. P t) E (run q statement d)
  run-Ends statement P E d keeps works = by_result (statement d).0 (statement d).1 keeps works
    where
      by_result :
          (r : Result (Unit {0})) (t : q.Db)
          → E t
          → (r ≡ ok tt → P t)
          → Ends (λ (u : Unit {0}) t. P t) E (returned r, t)
      by_result (ok u) t keeps works = works refl
      by_result (err e) t keeps works = keeps

  abbrev pub Same : q.Db → q.Db → Type 0
  Same d t = committed t ≡ committed d

  abbrev pub Begun : q.Db → Unit {0} → q.Db → Type 0
  Begun d u t = Same d t × (working t ≡ committed d)

  prepare-Ends :
      (d : q.Db) (table : TableName) (t : q.Db)
      → Begun d tt t
      → Ends (Begun d) (Same d) (run q (q.prepare table) t)
  prepare-Ends d table t begun =
      let same = laws.prepare_keeps table t ∙ begun.0 in
      run-Ends (q.prepare table) (Begun d tt) (Same d) t same
        (λ done. (same, laws.prepare_works table t ∙ begun.1))

  pub begin_tx-Ends : (d : q.Db) → Ends (Begun d) (Same d) (begin_tx q d)
  unfolding begin_tx
  begin_tx-Ends d =
      Ends-bind (Begun d) (Begun d) (Same d) (run q q.begin) _ d
        (run-Ends q.begin (Begun d tt) (Same d) d (laws.begin_keeps d)
          (λ done. (laws.begin_keeps d, laws.begin_starts d done)))
        λ _ t begun.
          Ends-bind (Begun d) (Begun d) (Same d) (run q (q.prepare blockchain_table)) _ t
            (prepare-Ends d blockchain_table t begun)
            λ _ u begun'. prepare-Ends d signers_table u begun'

  -- The committed tables are those of `d`, and the transaction holds these blocks.
  abbrev pub Blocks : q.Db → List BlockRow → Unit {0} → q.Db → Type 0
  Blocks d blocks u t = Same d t × ((working t).blocks ≡ blocks)

  insert_signer-Ends :
      (d : q.Db) (row : SignerRow) (t : q.Db)
      → Same d t
      → Ends (Blocks d (working t).blocks) (Same d) (run q (q.insert_signer row) t)
  insert_signer-Ends d row t same =
      let same' = laws.insert_signer_keeps row t ∙ same in
      run-Ends (q.insert_signer row) (Blocks d (working t).blocks tt) (Same d) t same'
        (λ done. (same', ap (λ (x : Tables). x.blocks) (laws.insert_signer_works row t done)))

  insert_signers-Ends :
      (d : q.Db) (number : ℕ) (addresses : List Text) (t : q.Db)
      → Same d t
      → Ends (Blocks d (working t).blocks) (Same d) (insert_signers q number addresses t)
  unfolding insert_signers
  insert_signers-Ends d number [] t same = (same, refl)
  insert_signers-Ends d number (address ∷ rest) t same =
      let row : SignerRow = record {
        number = number;
        address = address;
        as_proposer = 0;
        as_signer = 0;
      } in
      Ends-bind (Blocks d (working t).blocks) (Blocks d (working t).blocks) (Same d)
        (run q (q.insert_signer row)) _ t (insert_signer-Ends d row t same)
        λ _ u (same', blocks).
          Ends-weaken (Blocks d (working u).blocks) (Blocks d (working t).blocks) (Same d) (Same d)
            (insert_signers q number rest u) (insert_signers-Ends d number rest u same')
            (λ _ v (same'', blocks'). (same'', blocks' ∙ blocks)) (λ v h. h)

  -- The block row of an InsertHeader that succeeds, and the committed tables on every end.
  pub insert_header-Ends :
      (h : Header) (data' : SignerData) (n : ℕ) (d : q.Db)
      → Ends
          (Blocks d ((working d).blocks ++ block_row q h data' n ∷ []))
          (Same d)
          (insert_header q h data' n d)
  unfolding insert_header
  insert_header-Ends h data' n d =
      let row = block_row q h data' n in
      let blocks = (working d).blocks ++ row ∷ [] in
      let same = laws.insert_block_keeps row d in
      Ends-bind (Blocks d blocks) (Blocks d blocks) (Same d) (run q (q.insert_block row)) _ d
        (run-Ends (q.insert_block row) (Blocks d blocks tt) (Same d) d same
          (λ done. (same, ap (λ (x : Tables). x.blocks) (laws.insert_block_works row d done))))
        λ _ t (same', added).
          Ends-weaken (Blocks d (working t).blocks) (Blocks d blocks) (Same d) (Same d)
            (insert_signers q (row_number q h) data'.signers t)
            (insert_signers-Ends d (row_number q h) data'.signers t same')
            (λ _ v (same'', blocks'). (same'', blocks' ∙ added)) (λ v k. k)
