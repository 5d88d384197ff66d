-- ===== src/Main/Runs.antt =====
-- main.go: a run of the program, from its arguments to its exit code.
use signers.Base.{ℕ, Bool, List, if◌then◌else◌}
use signers.Base.Int.{ℤ}
use signers.Base.Text.{Text}
use signers.Base.Exec.{Result, ok, err, Outcome, returned, exited, panicked, blocked}
use signers.Redt.Types.{Geth}
use signers.Redt.Node.{Node}
use signers.Redt.Create.{new_redt_node}
use signers.Redt.Monitor
use signers.Redt.Monitor.{Latest, Watch}
use signers.Redt.Peers
use signers.History.Sqlite.{Sqlite}
use signers.History.Download
use signers.History.Download.{Session}
use signers.Serve.Site
use signers.Serve.Site.{SiteEvent}
use signers.Main.{
  Action, monitor_signers_ws, monitor_signers, display_peers_info, filter_logs, serve_signers,
  history_backwards, history_forward, Parsed, malformed, help, runs, Cli, commands,
}

-- What a run meets: whether rpc.Dial succeeds, whether the client for the notifications connects
-- and subscribes, the blocks that are notified, the rounds of the polling loop, the requests to the
-- server, and the outcome of the log filter.
pub record World : Type 0 where
  pub dialed : Bool
  pub subscribed : Bool
  pub notified : List ℕ
  pub polls : ℕ
  pub requests : List SiteEvent
  pub logs : Outcome (Unit {0})

-- How a run ends: with an exit code, by a panic, or not yet.
pub data Exit : Type 0 where
  code : ℕ → Exit
  crash : Exit
  runs_on : Exit

-- app.Run returned this; main exits with 1 for an error.
abbrev pub exit_of {ℓ} : {A : Type ℓ} → Outcome (Result A) → Exit
exit_of (returned (ok a)) = code 0
exit_of (returned (err e)) = code 1
exit_of exited = code 1
exit_of panicked = crash
exit_of blocked = runs_on

-- An endless loop, seen after some of its rounds.
abbrev endless {ℓ} : {A : Type ℓ} → Outcome A → Exit
endless (returned a) = runs_on
endless exited = code 1
endless panicked = crash
endless blocked = runs_on

-- An action that returns no error.
abbrev finishes {ℓ} : {A : Type ℓ} → Outcome A → Exit
finishes (returned a) = code 0
finishes exited = code 1
finishes panicked = crash
finishes blocked = runs_on

module _ (g : Geth) (q : Sqlite) (show_time : ℤ → Text) where
  -- The node's answers and the database.
  abbrev pub State : Type 0
  State = Download.State g q

  -- The monitors connect first.
  on_new_node : {A : Type 0} → (Node g → Outcome A) → Outcome (Result (Node g)) → Exit
  on_new_node run (returned (ok n)) = endless (run n)
  on_new_node run (returned (err e)) = code 1
  on_new_node run exited = code 1
  on_new_node run panicked = crash
  on_new_node run blocked = runs_on

  watch_node : World → Node g → Outcome Watch
  watch_node w n = if w.subscribed then (Monitor.monitor_signers_ws g w.notified n).0 else exited

  poll_node : World → ℤ → Node g → Outcome Latest
  poll_node w blocks n = (Monitor.monitor_signers g blocks w.polls n).0

  -- The functions that the actions call. The URL decides which node is dialed, and `refresh` how
  -- long the polling loop sleeps.
  unfoldable pub perform : World → Action → State → Exit × State
  unfolding on_new_node watch_node poll_node
  perform w (monitor_signers_ws url blocks) s =
      (on_new_node (watch_node w) (new_redt_node g w.dialed), s)
  perform w (monitor_signers url blocks refresh) s =
      (on_new_node (poll_node w blocks) (new_redt_node g w.dialed), s)
  perform w (display_peers_info url) s = (finishes (Peers.display_peers_info g w.dialed), s)
  perform w filter_logs s = (finishes w.logs, s)
  perform w (serve_signers url ip port) s =
      (endless (Site.serve_signers g show_time w.dialed w.requests).0, s)
  perform w (history_backwards url dsn stats) s =
      let (o, t) = Download.history_backwards g q w.dialed stats dsn s in (exit_of o, t)
  perform w (history_forward url dsn stats) s =
      let (o, t) = Download.history_forward g q w.dialed stats dsn s in (exit_of o, t)

  module _ (cli : Cli) where
    -- An error of the arguments is returned by app.Run, and the help is no error.
    run_parsed : World → Parsed cli.Context → State → Exit × State
    unfolding perform
    run_parsed w malformed s = (code 1, s)
    run_parsed w help s = (code 0, s)
    run_parsed w (runs command context) s = perform w (command.action context) s

    unfoldable pub run_main : World → List Text → State → Exit × State
    unfolding run_parsed commands
    run_main w arguments s = run_parsed w (cli.parse (commands cli) arguments) s
