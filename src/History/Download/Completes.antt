-- ===== src/History/Download/Completes.antt =====
-- Both downloads (history/history.go), once the node is connected and the database open, on a node
-- that serves its chain and a database that accepts every statement that it can.
use mathlib.Core.Path.{subst}
use signers.Base.{ℕ, suc, ◌+◌, ◌-◌, ◌*◌, ◌^◌, ◌≤◌, ◌<◌, ◌≡◌, refl, sym, ap, ◌∙◌, ◌++◌, arith, some}
use signers.Base.Int.{pos, rounds-pos}
use signers.Base.Ends.{Ends}
use signers.Base.Exec.{ok, returned, exited}
use signers.Redt.Types.{Geth}
use signers.Redt.Node.{Node, number_of_result, current_block_number}
use signers.Redt.Node.Chain.{Coherent, block_number-chain}
use signers.Redt.Stats.{signers_from_block}
use signers.Redt.Report.Data.{signer_data_exits}
use signers.Redt.Monitor.Steady.{Story, Steady, Found-block, Found-newest}
use signers.History.Sqlite.{Sqlite, SqliteLaws}
use signers.History.Store.{max_block_number, begin_tx, commit_tx}
use signers.History.Store.Effects.{Begun, Same, begin_tx-Ends}
use signers.History.Download.Upwards.{start_up-pos, forward_open-no_gap}
use signers.History.Download.Downwards.{below, start_down-eq}
use signers.History.Download.Contiguous.{Begun-ready}
use signers.History.Download.Blocks.{numbers, taken, Saved, Partial}
use signers.History.Download.{State, forward_open, backwards_open, copy_block, copy_down}
use signers.History.Download.Steps.{Willing, All-weaken, Progress, reliable, begin_tx-ok}
use signers.History.Download.Rounds.{copy_up-Progress, copy_down-Progress}

module _ (g : Geth) (q : Sqlite) (story : Story) (steady : Steady g story) (laws : SqliteLaws q)
    (willing : Willing q laws) where
  open story use {chain, newest}
  open laws use {committed}

  current-eq :
      (s : Node g) (coherent : Coherent g chain s.header_cache)
      → let found = Found-newest g story steady s coherent in
        current_block_number g s ≡ (
          returned (ok (pos (newest s.calls))),
          record s { header_cache = found.cache; calls = found.calls },
        )
  unfolding current_block_number number_of_result
  current-eq s coherent =
      let m = newest s.calls in
      rw (Found-newest g story steady s coherent).lookup (
        rw
          (block_number-chain g chain steady.laws steady.world m
            (omega (arith, steady.low s.calls)))
          refl)

  -- The state after the transaction was begun.
  begun-Progress :
      (f : ℕ → ℕ) (s t : State g q)
      → Coherent g chain t.node.header_cache
      → t.db ≡ (begin_tx q s.db).1
      → Progress g q story steady laws willing (numbers (committed s.db)) f 0 0 t
  begun-Progress f s t coherent is_begun =
      let begun : Begun q laws s.db tt t.db = subst (Begun q laws s.db tt) (sym is_begun) (
        subst (λ o. Ends (Begun q laws s.db) (Same q laws s.db) (o, (begin_tx q s.db).1))
          (begin_tx-ok q laws willing s.db) (begin_tx-Ends q laws s.db)) in
      record {
        hundreds = 0;
        copied =
            Begun-ready g q chain (reliable g q story steady laws willing)
              (numbers (committed s.db)) f (record { node = t.node; db = s.db }) t coherent refl
              begun refl;
        all = refl;
        room = omega arith;
      }

  forward_open-returns :
      (s : State g q) (m : ℕ)
      → 0 < m
      → m + 1 < 2 ^ 63
      → Coherent g chain s.node.header_cache
      → q.select_max s.db ≡ ok (some (pos m))
      → (t : State g q) × (forward_open g q s ≡ (returned (ok tt), t))
  unfolding forward_open max_block_number commit_tx
  forward_open-returns s m positive low coherent largest =
      let c = newest s.node.calls in
      let below_max = steady.low s.node.calls in
      let found = Found-newest g story steady s.node coherent in
      let old = numbers (committed s.db) in
      let t : State g q = record {
        node = record s.node { header_cache = found.cache; calls = found.calls };
        db = (begin_tx q s.db).1;
      } in
      let stored =
        All-weaken (λ x. x ≤ m) (λ x. x < suc m) old (λ x le. omega (arith, le))
          (willing.max_bounds s.db m largest) in
      let first : suc m ≡ suc m + 0 = omega arith in
      let (_, u, copied, _) =
        copy_up-Progress g q story steady laws willing old (suc m) (c - m) 0 0 (pos (suc m)) t
          (omega arith) stored (ap pos first) (omega arith)
          (begun-Progress (◌+◌ (suc m)) s t found.coherent refl) in
      (
        record u { db = (q.commit u.db).1 },
        rw largest (
            rw (current-eq s.node coherent) (
              rw (start_up-pos g q m c positive low, rounds-pos c m)
                (rw (begin_tx-ok q laws willing s.db) (rw copied refl)))),
      )

  -- Once the node is connected and the database open: the download of HistoryForward returns
  -- without an error, and the committed blocks are the old ones and then m + 1 up to the newest
  -- block of the node, in this order.
  pub forward_open-completes :
      (s : State g q) (m : ℕ)
      → 0 < m
      → m + 1 < 2 ^ 63
      → Coherent g chain s.node.header_cache
      → q.select_max s.db ≡ ok (some (pos m))
      → (t : State g q) × (forward_open g q s ≡ (returned (ok tt), t))
        × (numbers (committed t.db)
            ≡ numbers (committed s.db) ++ taken (◌+◌ (suc m)) (newest s.node.calls - m))
  forward_open-completes s m positive low coherent largest =
      let c = newest s.node.calls in
      let old = numbers (committed s.db) in
      let sound = reliable g q story steady laws willing in
      let (t, runs) = forward_open-returns s m positive low coherent largest in
      (
        t,
        runs,
        subst
            (Ends (λ (u : Unit {0}) x. Saved g q chain sound old (◌+◌ (suc m)) (c - m) x)
              (Partial g q chain sound old (◌+◌ (suc m)) (c - m)))
            runs
            (forward_open-no_gap g q chain sound s m c positive low (steady.low s.node.calls)
              coherent largest (ap (λ r. r.0) (current-eq s.node coherent))),
      )

  -- The genesis block has no seal: the process exits when it is copied.
  abbrev pub NoGenesisSeal : Type 0
  NoGenesisSeal = signers_from_block g (chain 0) ≡ exited

  genesis_exits :
      (count : ℕ) (t : State g q)
      → NoGenesisSeal
      → Coherent g chain t.node.header_cache
      → (u : State g q) × (copy_down g q 1 (pos 0) count t ≡ (exited, u)) × (u.db ≡ t.db)
  unfolding copy_down copy_block
  genesis_exits count t unsealed coherent =
      let found = Found-block g story steady 0 t.node (omega arith) coherent in
      (
        record t { node = record t.node { header_cache = found.cache; calls = found.calls } },
        rw (signer_data_exits g story steady 0 t.node (omega arith) coherent unsealed) refl,
        refl,
      )

  -- Once the node is connected and the database open: the download of HistoryBackwards exits at the
  -- genesis block, and of the blocks l - 1 down to 1 the full hundreds are committed.
  pub backwards_open-exits :
      (s : State g q) (m l : ℕ)
      → 0 < m
      → 0 < l
      → l < 2 ^ 63
      → NoGenesisSeal
      → Coherent g chain s.node.header_cache
      → q.select_max s.db ≡ ok (some (pos m))
      → q.select_min s.db ≡ ok (some (pos l))
      → (t : State g q) × (hundreds : ℕ) × (lost : ℕ) × (backwards_open g q s ≡ (exited, t))
        × (numbers (committed t.db)
            ≡ numbers (committed s.db) ++ taken (below (l - 1)) (100 * hundreds))
        × (100 * hundreds + lost ≡ l - 1)
        × (lost < 100)
  unfolding backwards_open max_block_number commit_tx
  backwards_open-exits s m l some_block positive low unsealed coherent largest smallest =
      let n = l - 1 in
      let old = numbers (committed s.db) in
      let t : State g q = record s { db = (begin_tx q s.db).1 } in
      let stored =
        All-weaken (λ x. l ≤ x) (λ x. n < x) old (λ x le. omega (arith, le, positive))
          (willing.min_bounds s.db l smallest) in
      let first : n ≡ n - 0 = omega arith in
      let (count', u, copied, p) =
        copy_down-Progress g q story steady laws willing old n n 0 0 (pos n) t stored (ap pos first)
          (omega arith) (omega arith) (begun-Progress (below n) s t coherent refl) in
      let (v, exits, same) = genesis_exits count' u unsealed p.copied.0 in
      (
        v,
        p.hundreds,
        count',
        rw largest (
            rw (start_down-eq g q s m l some_block positive low smallest)
              (rw (begin_tx-ok q laws willing s.db) (rw (copied ∙ exits) refl))),
        ap (λ d. numbers (committed d)) same ∙ p.copied.1,
        p.all,
        p.room,
      )
