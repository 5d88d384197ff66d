-- ===== src/History/Download/Steps.antt =====
-- The rounds of a download (history/history.go) on a node that serves its chain and a database that
-- accepts every statement that it can.
use mathlib.Core.Path.{subst}
use signers.Base.{
  ℕ, zero, suc, ◌+◌, ◌*◌, ◌^◌, ◌≤◌, ◌<◌, ◌≡◌, ◌≢◌, refl, sym, ap, ◌∙◌, List, [], ◌∷◌, ◌++◌, arith,
  All, Bool-cases, inl, inr, leb, some,
}
use native.Mathlib.Numerals.{add-one}
use signers.Base.Int.{pos}
use signers.Base.Text.{Text}
use signers.Base.Exec.{ok, returned}
use signers.Base.Ends.{Ends, Ends-weaken}
use signers.Base.Fallible.{Try, ◌>>=◌, ◌>>◌}
use signers.Redt.Types.{Header, SignerData, Geth}
use signers.Redt.Node.Chain.{Coherent}
use signers.Redt.Monitor.Steady.{Story, Steady, Found-block}
use signers.Redt.Report.{signer_data}
use signers.Redt.Report.Data.{signer_data_of_block}
use signers.History.Sqlite.{
  TableName, blockchain_table, signers_table, BlockRow, SignerRow, Sqlite, SqliteLaws,
}
use signers.History.Store.{
  begin_tx, commit_tx, insert_signers, insert_header, row_number, block_row,
}
use signers.History.Download.{State, inserts_per_commit, copy_block, count_insert}
use signers.History.Download.Blocks.{
  Reliable, numbers, taken, Saved, Copied, Next, copy_block-Ends, count_insert-Ends, row_is_next,
}

-- The number is not in the list.
abbrev pub Unused : ℕ → List ℕ → Type 0
Unused n xs = All (λ x. x ≢ n) xs

-- The database accepts every statement of a download, but the second row of a block: the number is
-- the primary key. And the largest and the smallest number that it tells bound the committed ones.
pub record Willing (q : Sqlite) (laws : SqliteLaws q) : Type 0 where
  pub begins : (d : q.Db) → (q.begin d).0 ≡ ok tt
  pub prepares : (table : TableName) (d : q.Db) → (q.prepare table d).0 ≡ ok tt
  pub inserts_block :
      (row : BlockRow) (d : q.Db)
      → Unused row.number (numbers (laws.working d))
      → (q.insert_block row d).0 ≡ ok tt
  pub inserts_signer : (row : SignerRow) (d : q.Db) → (q.insert_signer row d).0 ≡ ok tt
  pub commits : (d : q.Db) → (q.commit d).0 ≡ ok tt
  pub max_bounds :
      (d : q.Db) (m : ℕ)
      → q.select_max d ≡ ok (some (pos m))
      → All (λ n. n ≤ m) (numbers (laws.committed d))
  pub min_bounds :
      (d : q.Db) (l : ℕ)
      → q.select_min d ≡ ok (some (pos l))
      → All (λ n. l ≤ n) (numbers (laws.committed d))

module _ (q : Sqlite) (laws : SqliteLaws q) (willing : Willing q laws) where
  pub begin_tx-ok : (d : q.Db) → (begin_tx q d).0 ≡ returned (ok tt)
  unfolding begin_tx
  begin_tx-ok d =
      let d1 = (q.begin d).1 in
      let d2 = (q.prepare blockchain_table d1).1 in
      rw (willing.begins d)
        (rw (willing.prepares blockchain_table d1) (rw (willing.prepares signers_table d2) refl))

  insert_signers-ok :
      (number : ℕ) (addresses : List Text) (d : q.Db)
      → (insert_signers q number addresses d).0 ≡ returned (ok tt)
  unfolding insert_signers
  insert_signers-ok number [] d = refl
  insert_signers-ok number (address ∷ rest) d =
      let row : SignerRow = record {
        number = number;
        address = address;
        as_proposer = 0;
        as_signer = 0;
      } in
      rw (willing.inserts_signer row d) (insert_signers-ok number rest (q.insert_signer row d).1)

  insert_header-ok :
      (h : Header) (data' : SignerData) (n : ℕ) (d : q.Db)
      → Unused (row_number q h) (numbers (laws.working d))
      → (insert_header q h data' n d).0 ≡ returned (ok tt)
  unfolding insert_header
  insert_header-ok h data' n d unused =
      rw (willing.inserts_block (block_row q h data' n) d unused) (
        insert_signers-ok (row_number q h) data'.signers
          (q.insert_block (block_row q h data' n) d).1)

pub All-weaken : (P Q : ℕ → Type 0) (xs : List ℕ) → ((x : ℕ) → P x → Q x) → All P xs → All Q xs
All-weaken P Q [] f h = tt
All-weaken P Q (x ∷ xs) f (h, hs) = (f x h, All-weaken P Q xs f hs)

pub All-append : (P : ℕ → Type 0) (xs ys : List ℕ) → All P xs → All P ys → All P (xs ++ ys)
All-append P [] ys h k = k
All-append P (x ∷ xs) ys (h, hs) k = (h, All-append P xs ys hs k)

-- The first values of a sequence have what each of them has.
pub All-taken :
    (P : ℕ → Type 0) (f : ℕ → ℕ) (k : ℕ) → ((i : ℕ) → i < k → P (f i)) → All P (taken f k)
All-taken P f zero h = tt
All-taken P f (suc k) h =
    All-append P (taken f k) (f k ∷ []) (All-taken P f k (λ i lt. h i (omega arith)))
      (h k (omega arith), tt)

module _ (g : Geth) (q : Sqlite) (story : Story) (steady : Steady g story) (laws : SqliteLaws q)
    (willing : Willing q laws) where
  open story use {chain, author, signers}

  abbrev pub reliable : Reliable g q chain
  reliable = record {
    cache = steady.laws;
    world = steady.world;
    engine = laws;
    commits = willing.commits;
  }

  module _ (old : List ℕ) (f : ℕ → ℕ) where
    -- The first `done` blocks of the sequence are copied: the full hundreds are committed, and the
    -- rest is in the transaction.
    pub record Progress (done : ℕ) (count : ℕ) (t : State g q) : Type 0 where
      pub hundreds : ℕ
      pub copied : Copied g q chain reliable old f (100 * hundreds) count t
      pub all : 100 * hundreds + count ≡ done
      pub room : count < 100

    abbrev Unseen : ℕ → ℕ → Type 0
    Unseen n done = Unused n (old ++ taken f done)

    -- A round that returns without an error, and the rounds after it.
    pub record Round (done count n : ℕ) (s : State g q) : Type 0 where
      pub count' : ℕ
      pub after : State g q
      pub progress : Progress (suc done) count' after
      pub runs :
          (rest : ℕ → Try (State g q) (Unit {0}))
          → (copy_block g q (pos n) >> (count_insert g q count >>= rest)) s ≡ rest count' after

    copied_block :
        (n : ℕ) (s : State g q) (low : n < 2 ^ 63)
        → 0 < n
        → (coherent : Coherent g chain s.node.header_cache) → Unused n (numbers (laws.working s.db))
        → copy_block g q (pos n) s ≡ (
          returned (ok tt),
          record {
            node = record s.node {
              header_cache = (Found-block g story steady n s.node low coherent).cache;
              calls = (Found-block g story steady n s.node low coherent).calls;
            };
            db = (insert_header q (chain n) (signer_data g (author n, signers n)) 0 s.db).1;
          },
        )
    unfolding copy_block
    copied_block n s low some_block coherent unused =
        let is_n =
          row_is_next g q chain reliable old f n (chain n) (signer_data g (author n, signers n)) low
            refl in
        rw (signer_data_of_block g story steady n s.node some_block low coherent) (
          rw
            (insert_header-ok q laws willing (chain n) (signer_data g (author n, signers n)) 0 s.db
              (subst (λ k. Unused k (numbers (laws.working s.db))) (sym is_n) unused))
            refl)

    pub round :
        (done count n : ℕ) (s : State g q)
        → 0 < n
        → n < 2 ^ 63
        → n ≡ f done
        → Unseen n done
        → Progress done count s
        → Round done count n s
    unfolding count_insert commit_tx
    round done count n s some_block low next unseen p =
        let (coherent, saves, holds) = p.copied in
        let saved = 100 * p.hundreds in
        let next' : n ≡ f (saved + count) = next ∙ ap f (sym p.all) in
        let unused : Unused n (numbers (laws.working s.db)) =
          subst (Unused n) (sym (holds ∙ ap (λ k. old ++ taken f k) p.all)) unseen in
        let copies = copied_block n s low some_block coherent unused in
        let found = Found-block g story steady n s.node low coherent in
        let insert = insert_header q (chain n) (signer_data g (author n, signers n)) 0 in
        let t : State g q = record {
          node = record s.node { header_cache = found.cache; calls = found.calls };
          db = (insert s.db).1;
        } in
        let copied' : Copied g q chain reliable old f saved (suc count) t =
          subst
            (Ends (λ (u : Unit {0}) x. Copied g q chain reliable old f saved (suc count) x)
              (Saved g q chain reliable old f saved))
            copies (copy_block-Ends g q chain reliable old f n saved count s low next' p.copied) in
        let counted = count_insert-Ends g q chain reliable old f saved count t copied' in
        elim (Bool-cases (leb inserts_per_commit (count + 1))) [
          | inl full ↦
              let d = (q.commit t.db).1 in
              let u : State g q = record t { db = (begin_tx q d).1 } in
              let begun = begin_tx-ok q laws willing d in
              let counts : count_insert g q count t ≡ (returned (ok 0), u) =
                rw full (rw begun refl) in
              let (saved', copied'', all) =
                subst
                  (Ends (λ k x. Next g q chain reliable old f (suc (saved + count)) k x)
                    (λ x. Unit))
                  counts
                  (Ends-weaken (λ k x. Next g q chain reliable old f (suc (saved + count)) k x)
                    (λ k x. Next g q chain reliable old f (suc (saved + count)) k x) _ (λ x. Unit)
                    (count_insert g q count t) counted (λ k x h. h) (λ x h. tt)) in
              let hundred : saved' ≡ 100 * suc p.hundreds = ground (arith, p.room, all) in
              record {
                count' = 0;
                after = u;
                progress = record {
                  hundreds = suc p.hundreds;
                  copied = subst (λ k. Copied g q chain reliable old f k 0 u) hundred copied'';
                  all = omega (arith, all, hundred, p.all);
                  room = omega arith;
                };
                runs = λ rest. rw copies (rw counts refl);
              }
          | inr room ↦ record {
            count' = count + 1;
            after = t;
            progress = record {
              hundreds = p.hundreds;
              copied = rw add-one copied';
              all = omega (arith, p.all);
              room = ground arith;
            };
            runs = λ rest. rw copies (rw room refl);
          }
        ]
