-- ===== src/History/Store/Rows.antt =====
-- The rows of one block that InsertHeader (history/history.go) adds.
use signers.Base.{
  ℕ, ◌%◌, ◌^◌, ◌≡◌, sym, ap, ◌∙◌, List, [], ◌∷◌, ◌++◌, map, append_assoc, append-nil,
}
use signers.Base.Text.{Text}
use signers.Base.Ends.{Ends, Ends-bind, Ends-weaken, Ends-both}
use signers.Redt.Types.{Header, SignerData}
use signers.History.Sqlite.{BlockRow, SignerRow, Tables, Sqlite, SqliteLaws}
use signers.History.Store.{run, row_number, block_row, insert_signers, insert_header}
use signers.History.Store.Effects.{Same, Blocks, run-Ends, insert_header-Ends}

abbrev pub signer_row : ℕ → Text → SignerRow
signer_row n address = record { number = n; address = address; as_proposer = 0; as_signer = 0 }

-- The tables with the rows of one more block.
abbrev pub with_block : Tables → BlockRow → List Text → Tables
with_block t row addresses = record {
  blocks = t.blocks ++ row ∷ [];
  signers = t.signers ++ map (signer_row row.number) addresses;
}

module _ (q : Sqlite) (laws : SqliteLaws q) where
  open laws use {committed, working}

  -- The transaction holds these tables.
  abbrev pub Holds : Tables → Unit {0} → q.Db → Type 0
  Holds tables u t = working t ≡ tables

  abbrev pub AnyEnd : q.Db → Type 0
  AnyEnd t = Unit {0}

  abbrev more_signers : Tables → List SignerRow → Tables
  more_signers t rows = record t { signers = t.signers ++ rows }

  insert_signers-Holds :
      (n : ℕ) (addresses : List Text) (d : q.Db)
      → Ends
          (Holds (more_signers (working d) (map (signer_row n) addresses)))
          AnyEnd
          (insert_signers q n addresses d)
  unfolding insert_signers
  insert_signers-Holds n [] d =
      ap (λ rows. record (working d) { signers = rows }) (sym (append-nil (working d).signers))
  insert_signers-Holds n (address ∷ rest) d =
      let row = signer_row n address in
      let added = more_signers (working d) (row ∷ []) in
      let all = more_signers (working d) (row ∷ map (signer_row n) rest) in
      Ends-bind (Holds added) (Holds all) AnyEnd (run q (q.insert_signer row)) _ d
        (run-Ends q laws (q.insert_signer row) (Holds added tt) AnyEnd d tt
          (laws.insert_signer_works row d))
        λ _ t holds.
          let together = append_assoc (working d).signers (row ∷ []) (map (signer_row n) rest) in
          Ends-weaken (Holds (more_signers (working t) (map (signer_row n) rest))) (Holds all)
            AnyEnd AnyEnd (insert_signers q n rest t) (insert_signers-Holds n rest t)
            (λ _ u holds'.
              holds'
              ∙ ap (λ w. more_signers w (map (signer_row n) rest)) holds
              ∙ ap (λ rows. record (working d) { signers = rows }) together)
            (λ u h. h)

  insert_header-Holds :
      (h : Header) (data' : SignerData) (n : ℕ) (d : q.Db)
      → Ends
          (Holds (with_block (working d) (block_row q h data' n) data'.signers))
          AnyEnd
          (insert_header q h data' n d)
  unfolding insert_header
  insert_header-Holds h data' n d =
      let row = block_row q h data' n in
      let added = record (working d) { blocks = (working d).blocks ++ row ∷ [] } in
      let all = with_block (working d) row data'.signers in
      Ends-bind (Holds added) (Holds all) AnyEnd (run q (q.insert_block row)) _ d
        (run-Ends q laws (q.insert_block row) (Holds added tt) AnyEnd d tt
          (laws.insert_block_works row d))
        λ _ t holds.
          let rows = map (signer_row (row_number q h)) data'.signers in
          Ends-weaken (Holds (more_signers (working t) rows)) (Holds all) AnyEnd AnyEnd
            (insert_signers q (row_number q h) data'.signers t)
            (insert_signers-Holds (row_number q h) data'.signers t)
            (λ _ u holds'. holds' ∙ ap (λ w. more_signers w rows) holds) (λ u h. h)

  -- The tables of the transaction with the rows of this block.
  abbrev pub Inserted : Header → SignerData → ℕ → q.Db → Unit {0} → q.Db → Type 0
  Inserted h data' n d u t =
      (committed t ≡ committed d)
      × (working t ≡ record {
        blocks =
            (working d).blocks
            ++ (record {
              number = h.number % 2 ^ 64;
              proposer = data'.proposer;
              proposer_count = 0;
              gas_limit = h.gas_limit;
              gas_used = h.gas_used;
              time = h.time;
              num_txs = n;
              parent_hash = h.parent_hash;
              tx_hash = h.tx_hash;
              receipt_hash = h.receipt_hash;
            })
              ∷ [];
        signers =
            (working d).signers
            ++ map
                (λ address. record {
                  number = h.number % 2 ^ 64;
                  address = address;
                  as_proposer = 0;
                  as_signer = 0;
                })
                data'.signers;
      })

  -- InsertHeader, when it returns without an error, has added to the tables of the transaction one
  -- row for the block, with the header's number, gas limit, gas used, time and hashes, the proposer,
  -- the count of transactions that is given and 0 for the proposer's count, and one row for each
  -- signer, in their order, with the block's number and zero counts. On every end, also after some
  -- of the inserts failed, the committed tables are as they were.
  pub insert_header-Inserted :
      (h : Header) (data' : SignerData) (n : ℕ) (d : q.Db)
      → Ends (Inserted h data' n d) (λ t. committed t ≡ committed d) (insert_header q h data' n d)
  insert_header-Inserted h data' n d =
      let row = block_row q h data' n in
      let blocks = (working d).blocks ++ row ∷ [] in
      let added = Holds (with_block (working d) row data'.signers) in
      Ends-weaken (λ u t. Blocks q laws d blocks u t × added u t) (Inserted h data' n d)
        (λ t. Same q laws d t × AnyEnd t) (λ t. committed t ≡ committed d)
        (insert_header q h data' n d)
        (Ends-both (Blocks q laws d blocks) added (Same q laws d) AnyEnd
          (insert_header q h data' n d) (insert_header-Ends q laws h data' n d)
          (insert_header-Holds h data' n d))
        (λ u t both. (both.0.0, both.1)) (λ t both. both.0)
