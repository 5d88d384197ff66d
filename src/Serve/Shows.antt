-- ===== src/Serve/Shows.antt =====
-- One block after another through SignersForHeader, on a node that serves every block.
use signers.Base.{
  ℕ, ◌+◌, ◌%◌, ◌^◌, ◌<◌, ◌≡◌, refl, sym, ap, ◌∙◌, List, [], ◌∷◌, ◌++◌, map, Option, some, arith,
  All, count,
}
use mathlib.Core.Path.{fun_ext, ap₂}
use signers.Base.Int.{◌<ℤ◌}
use signers.Base.Exec.{returned}
use signers.Redt.Types.{Address, block_number, ValInfo, Geth}
use signers.Redt.Node.{Node}
use signers.Redt.Node.Chain.{block_number-chain}
use signers.Redt.Stats.{increment, increment_all, update_statistics_for_block}
use signers.Redt.Stats.Counting.{increment_all-mod, update_fresh}
use signers.Redt.Report.{report_row, signers_for_header}
use signers.Redt.Report.RoundRobin.{next_proposer-member}
use signers.Redt.Report.Display.{infos, All-elem}
use signers.Redt.Report.Answer.{signers_for_header-eq, next_operator-eq}
use signers.Redt.Monitor.Steady.{Story, Steady, Ready}
use signers.Redt.Monitor.Notified.{tally}
use signers.Serve.Pages.{
  entry_of, entry, address_or_zero, turn_after, after_blocks, report_of, tally-append,
  increment_all-lt,
}

infos-map :
    {A : Type 0} (m : Address → Option ValInfo) (row : ValInfo → A) (vs : List Address)
    (known : All (λ a. (info : ValInfo) × (m a ≡ some info)) vs)
    → map row (infos m vs known) ≡ map (λ v. row (entry_of (m v))) vs
infos-map m row [] known = refl
infos-map m row (v ∷ vs) ((info, listed), known) =
    ap₂ (λ x xs. x ∷ xs) (ap (λ o. row (entry_of o)) (sym listed)) (infos-map m row vs known)

module _ (g : Geth) (story : Story) (steady : Steady g story) (s : Node g) where
  open story use {chain, author, signers}

  -- The node after these blocks, with some cache.
  abbrev pub at : List ℕ → g.Cache → ℕ → Node g
  at ns cache calls = record (after_blocks g story s ns) { header_cache = cache; calls = calls }

  increment-tally :
      (ns : List ℕ) (n : ℕ)
      → increment (λ v. (s.as_proposer v + tally (λ i. author i ∷ []) v ns) % 2 ^ 64) (author n)
        ≡ (λ v. (s.as_proposer v + tally (λ i. author i ∷ []) v (ns ++ n ∷ [])) % 2 ^ 64)
  unfolding increment count
  increment-tally ns n =
      fun_ext (λ v. ground (arith, tally-append (λ i. author i ∷ []) v ns (n ∷ [])))

  increment_all-tally :
      (ns : List ℕ) (n : ℕ)
      → increment_all (signers n) (λ v. (s.as_signer v + tally signers v ns) % 2 ^ 64)
        ≡ (λ v. (s.as_signer v + tally signers v (ns ++ n ∷ [])) % 2 ^ 64)
  increment_all-tally ns n = fun_ext (λ v.
      let m : Address → ℕ = λ a. (s.as_signer a + tally signers a ns) % 2 ^ 64 in
      let small : m v < 2 ^ 64 = omega arith in
      omega (
        arith,
        increment_all-lt (signers n) m v small,
        increment_all-mod (signers n) m v,
        tally-append signers v ns (n ∷ []),
      ))

  update-at :
      (ns : List ℕ) (n : ℕ) (cache : g.Cache) (calls : ℕ)
      → 0 < n
      → n < 2 ^ 63
      → Ready g story s
      → update_statistics_for_block g (chain n) (at ns cache calls)
        ≡ (returned (author n, signers n), at (ns ++ n ∷ []) cache calls)
  update-at ns n cache calls some_block low ready =
      let t = at ns cache calls in
      let fresh : s.last_block_processed <ℤ block_number (chain n) =
        rw (ready.counting, block_number-chain g chain steady.laws steady.world n low)
          (omega arith) in
      update_fresh g (chain n) t (steady.recovered n some_block) ready.free fresh
      ∙ ap₂ (λ p q. (returned (author n, signers n), record t { as_proposer = p; as_signer = q }))
          (increment-tally ns n) (increment_all-tally ns n)

  -- The block n after the blocks `ns`: the report that the chain tells, and the node that has
  -- counted it.
  pub signers_for_header-at :
      (ns : List ℕ) (n latest : ℕ) (cache : g.Cache) (calls : ℕ)
      → 0 < n
      → n < 2 ^ 63
      → Ready g story s
      → signers_for_header g (chain n) latest (at ns cache calls) ≡ (
        returned (report_of g story s (ns ++ n ∷ []) latest n, (chain n).time),
        at (ns ++ n ∷ []) cache calls,
      )
  unfolding report_row
  signers_for_header-at ns n latest cache calls some_block low ready =
      let t = at ns cache calls in
      let u = at (ns ++ n ∷ []) cache calls in
      let row = report_row g (author n) (signers n) u in
      let (i, b, found, next) = next_proposer-member s.val_set (author n) ready.inhabited in
      let (info', listed') = All-elem s s.val_set i b ready.members_known found in
      let (info, listed) = ready.authors_known n in
      let named : info ≡ entry g story s (author n) = ap entry_of (sym listed) in
      let turn : info' ≡ entry g story s (turn_after (author n) s.val_set) =
        ap entry_of (sym listed') ∙ ap (λ o. entry g story s (address_or_zero o)) (sym next) in
      let rows = infos-map s.all_validators row s.val_set ready.members_known in
      signers_for_header-eq g (chain n) latest t (author n) (signers n) u info'.operator info
        ready.members_known ready.free.0 (update-at ns n cache calls some_block low ready)
        (next_operator-eq g (chain n) latest t u (author n) b info' next listed') listed
      ∙ (λ i. (
        returned (
          record (report_of g story s (ns ++ n ∷ []) latest n) {
            operator = (named i).operator;
            next_proposer_operator = (turn i).operator;
            signers = rows i;
          },
          (chain n).time,
        ),
        u,
      ))
