-- ===== src/Serve/Tests.antt =====
-- Runs of the model of serve/ on the demonstration node.
use signers.Base.{ℕ, ◌≡◌, refl, true, false, [], ◌∷◌, map, none, arith, length}
use signers.Base.Int.{ℤ, pos_part, int64}
use signers.Base.Text.{Text, decimal}
use signers.Base.Exec.{err, failed, returned, blocked}
use signers.Redt.Node.{header_by_number}
use signers.Redt.Node.Unlocks.{Ended}
use signers.Redt.Report.{signers_for_header}
use signers.Redt.Demo.{
  demo_geth, demo_node, demo_story, demo_steady, reply_for, demo-Coherent, demo-Ready,
}
use signers.Serve.{serve_via_ws, new_window}
use signers.Serve.Pages.{Words}
use signers.Serve.Shows.{at}
use signers.Serve.Told.{told}
use signers.Serve.Windows.{good, bad, all_good, shown, page_of}
use signers.Serve.Pages.{report_of}
use signers.Serve.Visit.{serve_via_ws-pages}
use signers.Serve.Site.{opens, receives, asks_index, site_run, new_site}
use signers.Serve.Site.Free.{IsClear, site_run-IsClear}
use signers.Serve.Site.Twice.{two_windows, site_run_counts_twice}

abbrev show_seconds : ℤ → Text
show_seconds z = decimal (pos_part z)

demo-Words : Words demo_node
demo-Words = record { proposals = λ v. omega arith; signatures = λ v. omega arith }

serve_via_ws-pages_example :
    (cache : demo_geth.Cache) × (calls : ℕ) × (serve_via_ws demo_geth show_seconds
        (all_good true)
        (good 2 ∷ map good (3 ∷ 4 ∷ []))
        (record { node = demo_node; window = new_window })
      ≡ (
        blocked,
        record {
          node = at demo_geth demo_story demo_steady demo_node (3 ∷ 4 ∷ []) cache calls;
          window = shown 104 (told demo_geth demo_story show_seconds demo_node [] 102 (3 ∷ 4 ∷ []));
        },
      ))
serve_via_ws-pages_example =
    serve_via_ws-pages demo_geth demo_story demo_steady show_seconds demo_node demo-Words true 2
      (3 ∷ 4 ∷ []) (omega arith, omega arith)
      ((omega arith, omega arith), ((omega arith, omega arith), tt)) demo-Ready

site_run-IsClear_example :
    let (o, t) =
      site_run demo_geth show_seconds
        (asks_index ∷ opens (all_good true) ∷ receives 0 (good 2) ∷ receives 0 (bad 3) ∷ [])
        (new_site demo_geth show_seconds demo_node) in
    Ended o × IsClear t
site_run-IsClear_example =
    site_run-IsClear demo_geth show_seconds
      (asks_index ∷ opens (all_good true) ∷ receives 0 (good 2) ∷ receives 0 (bad 3) ∷ [])
      (new_site demo_geth show_seconds demo_node) ((refl, refl), tt)

site_run_counts_twice_example :
    (cache : demo_geth.Cache) × (calls : ℕ) × (site_run demo_geth show_seconds
        (receives 0 (good 3) ∷ receives 1 (good 3) ∷ [])
        (two_windows demo_geth demo_story demo_steady show_seconds demo_node []
          (λ k. none)
          0
          102
          []
          102
          [])
      ≡ (
        returned tt,
        two_windows demo_geth demo_story demo_steady show_seconds demo_node
            (3 ∷ 3 ∷ [])
            cache
            calls
            103
            (page_of demo_geth demo_story demo_steady show_seconds demo_node
                (report_of demo_geth demo_story demo_node (3 ∷ []) 102 3)
              ∷ [])
            103
            (page_of demo_geth demo_story demo_steady show_seconds demo_node
                (report_of demo_geth demo_story demo_node (3 ∷ 3 ∷ []) 102 3)
              ∷ []),
      ))
site_run_counts_twice_example =
    site_run_counts_twice demo_geth demo_story demo_steady show_seconds demo_node [] 3 102 102 0 []
      [] (λ k. none) (omega arith, omega arith) demo-Coherent demo-Ready

-- A window that receives three headers and loses the browser at the third.
two_pages :
    let (o, t) =
      serve_via_ws demo_geth show_seconds
        (all_good true)
        (good 2 ∷ good 3 ∷ bad 4 ∷ [])
        (record { node = demo_node; window = new_window }) in
    (o ≡ returned (err failed))
    × (length t.window.pages ≡ 1)
    × (t.node.as_signer 0 ≡ 2)
    × (t.window.ws_open ≡ false)
unfolding serve_via_ws header_by_number signers_for_header reply_for int64
two_pages = (refl, refl, refl, refl)
