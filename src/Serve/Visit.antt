-- ===== src/Serve/Visit.antt =====
-- serveViaWS (serve/serve.go) from the first header on: what a window is sent, and how it ends.
use signers.Base.{
  ℕ, ◌+◌, ◌%◌, ◌^◌, ◌≡◌, refl, sym, ap, ◌∙◌, Bool, true, false, List, [], ◌∷◌, ◌++◌, map, arith,
  All, append-nil,
}
use mathlib.Core.Path.{fun_ext}
use signers.Base.Int.{ℤ, int64-pos}
use signers.Base.Text.{Text}
use signers.Base.Exec.{Outcome, Result, err, failed, returned, blocked, after}
use signers.Redt.Types.{Geth}
use signers.Redt.Node.{Node}
use signers.Redt.Node.Chain.{Coherent}
use signers.Redt.Monitor.Steady.{Story, Steady, Ready, Found-block}
use signers.Redt.Monitor.Notified.{InRange}
use signers.Serve.{
  Notice, Served, new_window, serve_rounds, serve_via_ws, with_client, stop_after, close_ws,
}
use signers.Serve.Pages.{Words, time_after}
use signers.Serve.Shows.{at}
use signers.Serve.Told.{told, pages-told}
use signers.Serve.Windows.{good, all_good, shown, pages_of, showing, serve_rounds-good}

module _ (g : Geth) (story : Story) (steady : Steady g story) (show_time : ℤ → Text) (s : Node g)
    (words : Words s) where
  open story use {chain}

  -- Nothing was counted yet.
  none_counted :
      (cache : g.Cache) (calls : ℕ)
      → record s { header_cache = cache; calls = calls } ≡ at g story steady s [] cache calls
  none_counted cache calls = λ i. record s {
    header_cache = cache;
    calls = calls;
    as_proposer =
        fun_ext {f = s.as_proposer} {g = λ v. (s.as_proposer v + 0) % 2 ^ 64}
          (λ v. omega (arith, words.proposals v)) i;
    as_signer =
        fun_ext {f = s.as_signer} {g = λ v. (s.as_signer v + 0) % 2 ^ 64}
          (λ v. omega (arith, words.signatures v)) i;
  }

  -- The window when it was opened.
  abbrev opened : Served g.Cache
  opened = record { node = s; window = record new_window { ws_open = true; qc_open = true } }

  serve_rounds-first :
      (first : ℕ) (rest : List Notice)
      → InRange first
      → Ready g story s
      → (cache : g.Cache) × (calls : ℕ) × Coherent g chain cache
        × (serve_rounds g show_time (good first ∷ rest) opened
            ≡ serve_rounds g show_time rest
                (showing g story steady show_time s [] cache calls (shown (chain first).time [])))
  unfolding serve_rounds
  serve_rounds-first first rest (some_block, low) ready =
      let found = Found-block g story steady first s low ready.coherent in
      (
        found.cache,
        found.calls,
        found.coherent,
        rw (int64-pos first low) (
            rw found.lookup (
              ap
                (λ n.
                  serve_rounds g show_time rest
                    (record { node = n; window = shown (chain first).time [] }))
                (none_counted found.cache found.calls))),
      )

  -- The deferred calls, in the order in which they run.
  abbrev closed :
      Bool
      → Outcome (Result (Unit {0})) × Served g.Cache
      → Outcome (Result (Unit {0})) × Served g.Cache
  closed stops r =
      let (o, t) = stop_after g show_time stops r in (o, after o (close_ws g show_time) t)

  serve_via_ws-closed :
      (stops : Bool) (notices : List Notice)
      → serve_via_ws g show_time (all_good stops) notices (record { node = s; window = new_window })
        ≡ closed stops (serve_rounds g show_time notices opened)
  unfolding serve_via_ws with_client
  serve_via_ws-closed stops notices = refl

  -- The pages of the blocks `ns` are sent, and what is left decides the end.
  serve_via_ws-good :
      (stops : Bool) (first : ℕ) (ns : List ℕ) (rest : List Notice)
      → InRange first
      → All InRange ns
      → Ready g story s
      → (cache : g.Cache) × (calls : ℕ) × Coherent g chain cache
        × (serve_via_ws g show_time
              (all_good stops)
              (good first ∷ (map good ns ++ rest))
              (record { node = s; window = new_window })
            ≡ closed stops (
                serve_rounds g show_time rest (
                  showing g story steady show_time s ns cache calls (
                    shown
                      (time_after g story s (chain first).time ns)
                      (pages_of g story steady show_time s [] (chain first).time ns)))))
  serve_via_ws-good stops first ns rest here others ready =
      let (cache, calls, coherent, start) =
        serve_rounds-first first (map good ns ++ rest) here ready in
      let (cache', calls', coherent', runs) =
        serve_rounds-good g story steady show_time s ready ns [] (chain first).time cache calls []
          rest others coherent in
      (cache', calls', coherent', serve_via_ws-closed stops _ ∙ ap (closed stops) (start ∙ runs))

  -- A window that is opened on a ready node, whose counters are 64-bit patterns, and receives the
  -- headers of a first block and then of the blocks `ns`, none of them the genesis block, is sent
  -- exactly one page for each block of `ns`, in this order, and waits for the next header. The
  -- text of each page is given: the number of the block, the seconds since the block before it, its
  -- time and its gas; a line for each validator of the set, with its proposals and its signatures
  -- in the blocks of `ns` up to this one, added to what the node had counted before, a badge around
  -- the counts that this block raised, a red one around those that are 0, and the validator's name;
  -- and the name of the validator whose turn is next. The first block is not shown and not counted.
  pub serve_via_ws-pages :
      (stops : Bool) (first : ℕ) (ns : List ℕ)
      → InRange first
      → All InRange ns
      → Ready g story s
      → (cache : g.Cache) × (calls : ℕ) × (serve_via_ws g show_time
            (all_good stops)
            (good first ∷ map good ns)
            (record { node = s; window = new_window })
          ≡ (
            blocked,
            record {
              node = at g story steady s ns cache calls;
              window =
                  shown
                    (time_after g story s (chain first).time ns)
                    (told g story show_time s [] (chain first).time ns);
            },
          ))
  unfolding serve_rounds stop_after
  serve_via_ws-pages stops first ns here others ready =
      let (cache, calls, coherent, runs) = serve_via_ws-good stops first ns [] here others ready in
      (
        cache,
        calls,
        ap
              (λ l.
                serve_via_ws g show_time (all_good stops) (good first ∷ l)
                  (record { node = s; window = new_window }))
              (sym (append-nil (map good ns)))
            ∙ runs
            ∙ waiting stops _
            ∙ ap
                (λ pages. (
                  blocked,
                  showing g story steady show_time s ns cache calls
                      (shown (time_after g story s (chain first).time ns) pages),
                ))
                (pages-told g story show_time s steady [] (chain first).time ns),
      )
    where
      waiting : (b : Bool) (t : Served g.Cache) → closed b (blocked, t) ≡ (blocked, t)
      waiting true t = refl
      waiting false t = refl

  -- The handler after its loop ended with an error: back from qc.Stop with everything closed, or
  -- waiting in it with both connections open, where the WebSocket is not closed.
  abbrev pub end_of : Bool → Outcome (Result (Unit {0}))
  end_of true = returned (err failed)
  end_of false = blocked

  abbrev pub stays_open : Bool → Bool
  stays_open true = false
  stays_open false = true
