-- ===== src/Serve.antt =====
-- serve/serve.go: the windows that browsers open, each with the blocks that were sent to it.
pub mod Page
pub mod Pages
pub mod Shows
pub mod Windows
pub mod Told
pub mod Visit
pub mod Site
pub mod Tests
use signers.Base.{ℕ, ◌+◌, Bool, true, false, List, [], ◌∷◌, ◌++◌, if◌then◌else◌}
use signers.Base.Int.{ℤ, pos, int64}
use signers.Base.Text.{Text, codes}
use signers.Base.Exec.{
  Result, ok, err, failed, Outcome, returned, exited, panicked, blocked, Exec, stop, deferred,
}
use signers.Base.Fallible.{Try, succeed, fail, pass, called, ◌>>=◌, ◌>>◌}
use signers.Redt.Types.{Header, Geth}
use signers.Redt.Node.{RedTNode, Node, header_by_number}
use signers.Redt.Report.{Report, signers_for_header}
use signers.Redt.Monitor.{Watch}
use signers.Serve.Page.{execute_template}

-- The variables of serveViaWS: `pages` is what was written to the WebSocket of the browser, and
-- `ws_open` and `qc_open` tell whether it and the client of the node are open.
pub record Window : Type 0 where
  pub watch : Watch
  pub pages : List Text
  pub ws_open : Bool
  pub qc_open : Bool

-- A window and the node that all windows share.
pub record Served (Cache : Type 0) : Type 0 where
  pub node : RedTNode Cache
  pub window : Window

-- A header that is received: its number, and whether the page made of it can be written.
pub record Notice : Type 0 where
  pub number : ℕ
  pub written : Bool

-- Whether the upgrade, the dial to the node and the subscription succeed, and whether qc.Stop
-- returns: it waits for the listener, which may be handing over a header that nobody receives.
pub record Setup : Type 0 where
  pub upgraded : Bool
  pub dialed : Bool
  pub subscribed : Bool
  pub stops : Bool

abbrev pub new_window : Window
new_window = record {
  watch = record { is_first = true; timestamp = 0 };
  pages = [];
  ws_open = false;
  qc_open = false;
}

module _ (g : Geth) (show_time : ℤ → Text) where
  abbrev pub State : Type 0
  State = Served g.Cache

  abbrev pub on_node {ℓ} : {A : Type ℓ} → Exec (Node g) A → Exec State A
  on_node m s = let (o, n) = m s.node in (o, record s { node = n })

  abbrev pub set_watch : Watch → State → State
  set_watch w s = record s { window = record s.window { watch = w } }

  abbrev open_ws : State → State
  open_ws s = record s { window = record s.window { ws_open = true } }

  abbrev open_qc : State → State
  open_qc s = record s { window = record s.window { qc_open = true } }

  abbrev pub close_ws : State → State
  close_ws s = record s { window = record s.window { ws_open = false } }

  -- qc.Stop(), where it returns.
  abbrev pub close_qc : State → State
  close_qc s = record s { window = record s.window { qc_open = false } }

  -- ws.WriteMessage
  write_message : Bool → Text → Try State (Unit {0})
  write_message true page s = (
    returned (ok tt),
    record s { window = record s.window { pages = s.window.pages ++ page ∷ [] } },
  )
  write_message false page s = (returned (err failed), s)

  send_report : Bool → Report × ℕ → Try State (Unit {0})
  unfolding write_message execute_template
  send_report written (report, timestamp) s =
      let t = set_watch (record { is_first = false; timestamp = timestamp }) s in
      (do
        page ← pass (execute_template show_time (codes "table.html") report)
        write_message written page)
        t

  next_header : Bool → Header → Try State (Unit {0})
  unfolding send_report
  next_header written h s =
      (do
        answer ← called (on_node (signers_for_header g h s.window.watch.timestamp))
        send_report written answer)
        s

  after_header : Bool → Header → Try State (Unit {0})
  unfolding next_header
  after_header written h s =
      if s.window.watch.is_first
      then (returned (ok tt), set_watch (record { is_first = false; timestamp = h.time }) s)
      else next_header written h s

  -- One round of the endless loop, for the header that it waited for.
  unfoldable pub serve_round : Notice → Try State (Unit {0})
  unfolding after_header header_by_number
  serve_round notice = do
    h ← on_node (header_by_number g (int64 (pos notice.number)))
    after_header notice.written h

  -- After the last of the headers the loop waits for the next.
  unfoldable pub serve_rounds : List Notice → Try State (Unit {0})
  unfolding serve_round
  serve_rounds [] = stop blocked
  serve_rounds (notice ∷ notices) = do serve_round notice; serve_rounds notices

  subscribe : Bool → Try State (Unit {0})
  subscribe true = succeed tt
  subscribe false = fail failed

  -- The deferred qc.Stop(), after a return or a panic: the handler waits for it.
  stop_after : Bool → Outcome (Result (Unit {0})) × State → Outcome (Result (Unit {0})) × State
  stop_after true (returned r, s) = (returned r, close_qc s)
  stop_after true (panicked, s) = (panicked, close_qc s)
  stop_after false (returned r, s) = (blocked, s)
  stop_after false (panicked, s) = (blocked, s)
  stop_after stops (exited, s) = (exited, s)
  stop_after stops (blocked, s) = (blocked, s)

  unfoldable pub with_client : Bool → Bool → List Notice → Try State (Unit {0})
  unfolding subscribe serve_rounds stop_after
  with_client subscribed stops notices s =
      stop_after stops ((do subscribe subscribed; serve_rounds notices) (open_qc s))

  unfoldable pub serve_via_ws : Setup → List Notice → Try State (Unit {0})
  unfolding with_client
  serve_via_ws setup notices s =
      if setup.upgraded
      then deferred close_ws
          (if setup.dialed then with_client setup.subscribed setup.stops notices else fail failed)
          (open_ws s)
      else (returned (err failed), s)
