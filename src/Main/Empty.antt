-- ===== src/Main/Empty.antt =====
-- `signers history` and `signers historyfw` (main.go) with an empty database.
use signers.Base.{◌≡◌, ◌≢◌, refl, ap, ◌∙◌, true, false, List, [], ◌∷◌, ◌++◌, some, All}
use signers.Base.Int.{ℤ}
use signers.Base.Text.{Text, codes, text_eq, text_eq_refl}
use signers.Base.Exec.{Result, ok, err, Outcome, returned, exited, panicked, blocked}
use signers.Redt.Types.{Geth}
use signers.History.Sqlite.{Sqlite, SqliteLaws}
use signers.History.Download.{history_backwards, history_forward}
use signers.History.Download.Empty.{is_success, download_of_empty}
use signers.Main.{
  Command, runs, Cli, commands, monitor_ws_cmd, monitor_cmd, display_peers_cmd, logfilter_cmd,
  serve_cmd, history_cmd, history_forward_cmd,
}
use signers.Main.Runs.{World, code, exit_of, State, run_main}

exit_of-failure : {A : Type 0} (o : Outcome (Result A)) → is_success o ≡ false → exit_of o ≢ code 0
exit_of-failure (returned (ok a)) h = cc
exit_of-failure (returned (err e)) h = λ x. cc
exit_of-failure exited h = λ x. cc
exit_of-failure panicked h = λ x. cc
exit_of-failure blocked h = λ x. cc

-- What urfave/cli documents: a first argument that names a command runs the first command with this
-- name, with the options that the other arguments give, or is an error if they are wrong.
pub record CliLaws (cli : Cli) : Type 0 where
  pub chooses :
      (before after : List (Command cli.Context)) (c : Command cli.Context) (rest : List Text)
      (context : cli.Context)
      → All (λ (d : Command cli.Context). d.name ≢ c.name) before
      → cli.options c.flags rest ≡ some context
      → cli.parse (before ++ c ∷ after) (c.name ∷ rest) ≡ runs c context

-- Two names that a comparison tells apart.
differ : (s t : Text) → text_eq s t ≡ false → s ≢ t
differ s t apart same =
    let alike : text_eq s t ≡ true = ap (λ u. text_eq u t) same ∙ text_eq_refl t in cc

module _ (g : Geth) (q : Sqlite) (laws : SqliteLaws q) (show_time : ℤ → Text) (cli : Cli)
    (documented : CliLaws cli) where
  open laws use {committed}
  open cli use {Context, options, string_of, bool_of}

  abbrev Differs : Text → Command Context → Type 0
  Differs name d = d.name ≢ name

  history_runs :
      (w : World) (rest : List Text) (context : Context) (s : State g q show_time)
      → options (history_cmd cli).flags rest ≡ some context
      → bool_of context (codes "stats") ≡ false
      → let (o, t) = history_backwards g q w.dialed false (string_of context (codes "dsn")) s in
        run_main g q show_time cli w (codes "history" ∷ rest) s ≡ (exit_of o, t)
  unfolding run_main commands history_cmd monitor_ws_cmd monitor_cmd display_peers_cmd logfilter_cmd
      serve_cmd text_eq
  history_runs w rest context s given plain =
      let name = codes "history" in
      let chosen =
        documented.chooses
          (monitor_ws_cmd cli
            ∷ monitor_cmd cli
            ∷ display_peers_cmd cli
            ∷ logfilter_cmd cli
            ∷ serve_cmd cli
            ∷ [])
          (history_forward_cmd cli ∷ []) (history_cmd cli) rest context
          (
            differ (codes "monitor") name refl,
            (
              differ (codes "poll") name refl,
              (
                differ (codes "peers") name refl,
                (differ (codes "logfilter") name refl, (differ (codes "serve") name refl, tt)),
              ),
            ),
          )
          given in
      rw chosen (rw plain refl)

  historyfw_runs :
      (w : World) (rest : List Text) (context : Context) (s : State g q show_time)
      → options (history_forward_cmd cli).flags rest ≡ some context
      → bool_of context (codes "stats") ≡ false
      → let (o, t) = history_forward g q w.dialed false (string_of context (codes "dsn")) s in
        run_main g q show_time cli w (codes "historyfw" ∷ rest) s ≡ (exit_of o, t)
  unfolding run_main commands history_cmd history_forward_cmd monitor_ws_cmd monitor_cmd
      display_peers_cmd logfilter_cmd serve_cmd text_eq
  historyfw_runs w rest context s given plain =
      let name = codes "historyfw" in
      let chosen =
        documented.chooses
          (monitor_ws_cmd cli
            ∷ monitor_cmd cli
            ∷ display_peers_cmd cli
            ∷ logfilter_cmd cli
            ∷ serve_cmd cli
            ∷ history_cmd cli
            ∷ [])
          [] (history_forward_cmd cli) rest context
          (
            differ (codes "monitor") name refl,
            (
              differ (codes "poll") name refl,
              (
                differ (codes "peers") name refl,
                (
                  differ (codes "logfilter") name refl,
                  (differ (codes "serve") name refl, (differ (codes "history") name refl, tt)),
                ),
              ),
            ),
          )
          given in
      rw chosen (rw plain refl)

  -- With a database without blocks, `signers history` and `signers historyfw` with options that
  -- urfave/cli accepts and without the option `stats`, whatever the other options are and whatever
  -- the node answers, never exit with 0, and leave the committed tables as they were: the database
  -- that they are to fill stays empty.
  pub history-empty :
      (w : World) (rest : List Text) (context : Context) (s : State g q show_time)
      → options (history_cmd cli).flags rest ≡ some context
      → options (history_forward_cmd cli).flags rest ≡ some context
      → bool_of context (codes "stats") ≡ false
      → (committed s.db).blocks ≡ []
      → let (e, t) = run_main g q show_time cli w (codes "history" ∷ rest) s in
        let (e', t') = run_main g q show_time cli w (codes "historyfw" ∷ rest) s in
        ((e ≢ code 0) × (committed t.db ≡ committed s.db))
        × ((e' ≢ code 0) × (committed t'.db ≡ committed s.db))
  history-empty w rest context s given given' plain empty =
      let dsn = string_of context (codes "dsn") in
      let (up, down) = download_of_empty g q laws w.dialed dsn s empty in
      rw (history_runs w rest context s given plain, historyfw_runs w rest context s given' plain)
        ((exit_of-failure _ down.0, down.1), (exit_of-failure _ up.0, up.1))
