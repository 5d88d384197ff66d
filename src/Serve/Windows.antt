-- ===== src/Serve/Windows.antt =====
-- The pages that serveViaWS (serve/serve.go) sends to one window.
use signers.Base.{
  ℕ, ◌≡◌, refl, ◌∙◌, Bool, true, false, List, [], ◌∷◌, ◌++◌, map, All, append_assoc, append-nil,
}
use signers.Base.Int.{ℤ, int64-pos}
use signers.Base.Text.{Text}
use signers.Base.Fallible.{Try}
use signers.Base.Exec.{Outcome, Result, ok, err, failed, returned}
use signers.Redt.Types.{Geth}
use signers.Redt.Node.{Node}
use signers.Redt.Node.Chain.{Coherent}
use signers.Redt.Report.{Report}
use signers.Redt.Monitor.Steady.{Story, Steady, Ready, Found-block}
use signers.Redt.Monitor.Notified.{InRange}
use signers.Serve.{Setup, Window, Notice, Served, serve_round, serve_rounds}
use signers.Serve.Page.{parts_text, table_html}
use signers.Serve.Pages.{report_of, reports_of, time_after}
use signers.Serve.Shows.{at, signers_for_header-at}

-- A header whose page is written with success, and one whose page is not.
abbrev pub good : ℕ → Notice
good n = record { number = n; written = true }

abbrev pub bad : ℕ → Notice
bad n = record { number = n; written = false }

abbrev pub all_good : Bool → Setup
all_good stops = record { upgraded = true; dialed = true; subscribed = true; stops = stops }

-- The window after its first header, with these pages.
abbrev pub shown : ℕ → List Text → Window
shown timestamp pages = record {
  watch = record { is_first = false; timestamp = timestamp };
  pages = pages;
  ws_open = true;
  qc_open = true;
}

module _ (g : Geth) (story : Story) (steady : Steady g story) (show_time : ℤ → Text)
    (s : Node g) where
  open story use {chain}

  abbrev pub page_of : Report → Text
  page_of r = parts_text show_time table_html r

  -- The pages of the blocks `ns`, of which `before` were counted already.
  abbrev pub pages_of : List ℕ → ℕ → List ℕ → List Text
  pages_of before latest ns = map page_of (reports_of g story s before latest ns)

  abbrev pub showing : List ℕ → g.Cache → ℕ → Window → Served g.Cache
  showing ns cache calls w = record { node = at g story steady s ns cache calls; window = w }

  module _ (ready : Ready g story s) where
    -- What the node is, up to the header cache and the count of calls, and what is returned.
    abbrev pub Serves :
        Try (Served g.Cache) (Unit {0})
        → Served g.Cache
        → Outcome (Result (Unit {0}))
        → List ℕ
        → Window
        → Type 0
    Serves m t o ns w =
        (cache : g.Cache) × (calls : ℕ) × Coherent g chain cache
        × (m t ≡ (o, showing ns cache calls w))

    pub serve_round-good :
        (ns : List ℕ) (n latest : ℕ) (cache : g.Cache) (calls : ℕ) (pages : List Text)
        → InRange n
        → Coherent g chain cache
        → Serves
            (serve_round g show_time (good n))
            (showing ns cache calls (shown latest pages))
            (returned (ok tt))
            (ns ++ n ∷ [])
            (shown
              (chain n).time
              (pages ++ page_of (report_of g story s (ns ++ n ∷ []) latest n) ∷ []))
    unfolding serve_round
    serve_round-good ns n latest cache calls pages (some_block, low) coherent =
        let found =
          Found-block g story steady n (at g story steady s ns cache calls) low coherent in
        let shows =
          signers_for_header-at g story steady s ns n latest found.cache found.calls some_block low
            ready in
        (
          found.cache,
          found.calls,
          found.coherent,
          rw (int64-pos n low) (rw found.lookup (rw shows refl)),
        )

    pub serve_round-bad :
        (ns : List ℕ) (n latest : ℕ) (cache : g.Cache) (calls : ℕ) (pages : List Text)
        → InRange n
        → Coherent g chain cache
        → Serves
            (serve_round g show_time (bad n))
            (showing ns cache calls (shown latest pages))
            (returned (err failed))
            (ns ++ n ∷ [])
            (shown (chain n).time pages)
    unfolding serve_round
    serve_round-bad ns n latest cache calls pages (some_block, low) coherent =
        let found =
          Found-block g story steady n (at g story steady s ns cache calls) low coherent in
        let shows =
          signers_for_header-at g story steady s ns n latest found.cache found.calls some_block low
            ready in
        (
          found.cache,
          found.calls,
          found.coherent,
          rw (int64-pos n low) (rw found.lookup (rw shows refl)),
        )

    -- The pages of the blocks `ns`, and then what is left.
    pub serve_rounds-good :
        (ns before : List ℕ) (latest : ℕ) (cache : g.Cache) (calls : ℕ) (pages : List Text)
        (rest : List Notice)
        → All InRange ns
        → Coherent g chain cache
        → (cache' : g.Cache) × (calls' : ℕ) × Coherent g chain cache'
          × (serve_rounds g show_time
                (map good ns ++ rest)
                (showing before cache calls (shown latest pages))
              ≡ serve_rounds g show_time rest (
                  showing
                    (before ++ ns)
                    cache'
                    calls'
                    (shown (time_after g story s latest ns) (pages ++ pages_of before latest ns))))
    unfolding serve_rounds
    serve_rounds-good [] before latest cache calls pages rest in_range coherent =
        (cache, calls, coherent, rw (append-nil before, append-nil pages) refl)
    serve_rounds-good (n ∷ ns) before latest cache calls pages rest (here, others) coherent =
        let (cache1, calls1, coherent1, round) =
          serve_round-good before n latest cache calls pages here coherent in
        let page = page_of (report_of g story s (before ++ n ∷ []) latest n) in
        let (cache2, calls2, coherent2, runs) =
          serve_rounds-good ns (before ++ n ∷ []) (chain n).time cache1 calls1 (pages ++ page ∷ [])
            rest others coherent1 in
        (
          cache2,
          calls2,
          coherent2,
          rw round (
              runs
              ∙ rw
                  (
                    append_assoc before (n ∷ []) ns,
                    append_assoc pages (page ∷ []) (pages_of (before ++ n ∷ []) (chain n).time ns),
                  )
                  refl),
        )
