-- ===== src/Serve/Site.antt =====
-- serve/serve.go: the server, whose windows are served round by round in any order.
pub mod Free
pub mod Twice
use signers.Base.{
  ℕ, zero, suc, Bool, true, false, List, [], ◌∷◌, ◌++◌, Option, none, some, if◌then◌else◌,
}
use signers.Base.Int.{ℤ}
use signers.Base.Text.{Text}
use signers.Base.Exec.{
  Result, ok, err, Outcome, returned, exited, panicked, blocked, Exec, pure, continue, ◌>>=◌, ◌>>◌,
}
use signers.Redt.Types.{Geth}
use signers.Redt.Node.{RedTNode, Node}
use signers.Redt.Create.{new_redt_node}
use signers.Serve.{Setup, Window, Notice, Served, new_window, serve_round}
use signers.Serve.Page.{index_html}

-- An answer to a plain HTTP request.
pub record Html : Type 0 where
  pub status : ℕ
  pub body : Text

-- The handler of a window: in its loop, past its loop (also by a panic, which the middleware
-- recovers, and whether or not the deferred qc.Stop returns), or waiting for the lock.
pub data Handler : Type 0 where
  running : Window → Handler
  ended : Window → Handler
  stuck : Window → Handler

pub record Site (Cache : Type 0) : Type 0 where
  pub node : RedTNode Cache
  pub handlers : List Handler
  pub answers : List Html

-- A request for /, a request for /ws, and a header for the window with this index.
pub data SiteEvent : Type 0 where
  asks_index : SiteEvent
  opens : Setup → SiteEvent
  receives : ℕ → Notice → SiteEvent

pub render_index : Html
render_index = record { status = 200; body = index_html }

abbrev pub opened_window : Window
opened_window = record new_window { ws_open = true; qc_open = true }

-- A handler whose setup fails returns and closes what it opened.
abbrev pub start_window : Setup → Handler
start_window setup =
    if setup.upgraded
    then (if setup.dialed
        then (if setup.subscribed then running opened_window else ended new_window)
        else ended new_window)
    else ended new_window

abbrev pub handler_after : Outcome (Result (Unit {0})) → Window → Handler
handler_after (returned (ok u)) w = running w
handler_after (returned (err e)) w = ended w
handler_after exited w = running w
handler_after panicked w = ended w
handler_after blocked w = stuck w

-- A panic of a handler is recovered, and the exit of the process is not.
abbrev pub site_outcome : Outcome (Result (Unit {0})) → Outcome (Unit {0})
site_outcome (returned r) = returned tt
site_outcome exited = exited
site_outcome panicked = returned tt
site_outcome blocked = returned tt

module _ (g : Geth) (show_time : ℤ → Text) where
  -- A header for this handler: the node afterwards, and the handler.
  abbrev pub deliver : Notice → Handler → Node g → Outcome (Unit {0}) × Node g × Handler
  deliver notice (running w) n =
      let (o, s) = serve_round g show_time notice (record { node = n; window = w }) in
      (site_outcome o, s.node, handler_after o s.window)
  deliver notice (ended w) n = (returned tt, n, ended w)
  deliver notice (stuck w) n = (returned tt, n, stuck w)

  unfoldable pub deliver_at :
      ℕ → Notice → List Handler → Node g → Outcome (Unit {0}) × Node g × List Handler
  deliver_at i notice [] n = (returned tt, n, [])
  deliver_at zero notice (h ∷ hs) n = let (o, n', h') = deliver notice h n in (o, n', h' ∷ hs)
  deliver_at (suc i) notice (h ∷ hs) n =
      let (o, n', hs') = deliver_at i notice hs n in (o, n', h ∷ hs')

  unfoldable pub site_step : SiteEvent → Exec (Site g.Cache) (Unit {0})
  unfolding render_index deliver_at
  site_step asks_index s = (returned tt, record s { answers = s.answers ++ render_index ∷ [] })
  site_step (opens setup) s =
      (returned tt, record s { handlers = s.handlers ++ start_window setup ∷ [] })
  site_step (receives i notice) s =
      let (o, n, hs) = deliver_at i notice s.handlers s.node in
      (o, record s { node = n; handlers = hs })

  unfoldable pub site_run : List SiteEvent → Exec (Site g.Cache) (Unit {0})
  unfolding site_step
  site_run [] = pure tt
  site_run (event ∷ events) = do site_step event; site_run events

  abbrev pub new_site : Node g → Site g.Cache
  new_site n = record { node = n; handlers = []; answers = [] }

  started : Outcome (Result (Node g)) → List SiteEvent → Outcome (Unit {0}) × Option (Site g.Cache)
  unfolding site_run
  started (returned (ok n)) events = let (o, s) = site_run events (new_site n) in (o, some s)
  started (returned (err e)) events = (exited, none)
  started exited events = (exited, none)
  started panicked events = (panicked, none)
  started blocked events = (blocked, none)

  -- ServeSigners: the connection to the node, and then the requests, as long as the server runs.
  unfoldable pub serve_signers : Bool → List SiteEvent → Outcome (Unit {0}) × Option (Site g.Cache)
  unfolding started new_redt_node
  serve_signers dialed events = started (new_redt_node g dialed) events
