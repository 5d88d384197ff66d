-- ===== src/Serve/Site/Twice.antt =====
-- Two windows of `signers serve` (serve/serve.go) share one set of counters.
use signers.Base.{ℕ, ◌≡◌, ap, ◌∙◌, List, [], ◌∷◌, ◌++◌}
use signers.Base.Int.{ℤ}
use signers.Base.Text.{Text}
use signers.Base.Exec.{ok, returned, continue}
use signers.Redt.Types.{Geth}
use signers.Redt.Node.{Node}
use signers.Redt.Node.Chain.{Coherent}
use signers.Redt.Monitor.Steady.{Story, Steady, Ready}
use signers.Redt.Monitor.Notified.{InRange}
use signers.Serve.Pages.{report_of}
use signers.Serve.Shows.{at}
use signers.Serve.Windows.{good, shown, page_of, serve_round-good}
use signers.Serve.{Notice, Window, serve_round}
use signers.Serve.Site.{running, Site, receives, deliver_at, site_outcome, handler_after, site_run}

module _ (g : Geth) (story : Story) (steady : Steady g story) (show_time : ℤ → Text)
    (s : Node g) where
  open story use {chain}

  -- A node that has counted the blocks `ns`, and two windows in their loops.
  abbrev pub two_windows : List ℕ → g.Cache → ℕ → ℕ → List Text → ℕ → List Text → Site g.Cache
  two_windows ns cache calls latest pages latest' pages' = record {
    node = at g story steady s ns cache calls;
    handlers = running (shown latest pages) ∷ running (shown latest' pages') ∷ [];
    answers = [];
  }

  abbrev both : Node g → Window → Window → Site g.Cache
  both n w w' = record { node = n; handlers = running w ∷ running w' ∷ []; answers = [] }

  -- Two rounds, the first of the one window and the second of the other.
  both_receive :
      (notice : Notice) (n n1 n2 : Node g) (w w' v v' : Window)
      → serve_round g show_time notice (record { node = n; window = w })
        ≡ (returned (ok tt), record { node = n1; window = v })
      → serve_round g show_time notice (record { node = n1; window = w' })
        ≡ (returned (ok tt), record { node = n2; window = v' })
      → site_run g show_time (receives 0 notice ∷ receives 1 notice ∷ []) (both n w w')
        ≡ (returned tt, both n2 v v')
  unfolding site_run deliver_at
  both_receive notice n n1 n2 w w' v v' one two =
      ap
        (λ r.
          continue (site_outcome r.0) (λ _. site_run g show_time (receives 1 notice ∷ []))
            (record {
              node = r.1.node;
              handlers = handler_after r.0 r.1.window ∷ running w' ∷ [];
              answers = [];
            }))
        one
      ∙ ap
          (λ r.
            continue (site_outcome r.0) (λ _. site_run g show_time [])
              (record {
                node = r.1.node;
                handlers = running v ∷ handler_after r.0 r.1.window ∷ [];
                answers = [];
              }))
          two

  -- When a header of block n, not the genesis block, reaches two windows on a ready node, both are
  -- sent a page of this block, and the block is counted twice: the second page shows the proposals
  -- and signatures of the blocks before and of block n two times over.
  pub site_run_counts_twice :
      (ns : List ℕ) (n latest latest' calls : ℕ) (pages pages' : List Text) (cache : g.Cache)
      → InRange n
      → Coherent g chain cache
      → Ready g story s
      → (cache' : g.Cache) × (calls' : ℕ) × (site_run g show_time
            (receives 0 (good n) ∷ receives 1 (good n) ∷ [])
            (two_windows ns cache calls latest pages latest' pages')
          ≡ (
            returned tt,
            two_windows
                ((ns ++ n ∷ []) ++ n ∷ [])
                cache'
                calls'
                (chain n).time
                (pages
                  ++ page_of g story steady show_time s
                      (report_of g story s (ns ++ n ∷ []) latest n)
                    ∷ [])
                (chain n).time
                (pages'
                  ++ page_of g story steady show_time s
                      (report_of g story s ((ns ++ n ∷ []) ++ n ∷ []) latest' n)
                    ∷ []),
          ))
  site_run_counts_twice ns n latest latest' calls pages pages' cache here coherent ready =
      let (cache1, calls1, coherent1, first) =
        serve_round-good g story steady show_time s ready ns n latest cache calls pages here
          coherent in
      let (cache2, calls2, coherent2, second) =
        serve_round-good g story steady show_time s ready (ns ++ n ∷ []) n latest' cache1 calls1
          pages' here coherent1 in
      (cache2, calls2, both_receive (good n) _ _ _ _ _ _ _ first second)
