-- ===== src/Main/Tests.antt =====
-- Runs of the model of main.go.
use signers.Base.{
  ◌≡◌, ◌≢◌, refl, ap, true, false, List, [], ◌∷◌, ◌++◌, Option, none, some, if◌then◌else◌, All,
  Bool-cases, inl, inr,
}
use signers.Base.Int.{ℤ, pos}
use signers.Base.Text.{Text, codes, text_eq, text_eq-eq, text_eq_refl}
use signers.Base.Exec.{returned}
use signers.Redt.Demo.{demo_geth, demo_node}
use signers.History.Demo.{memory, memory_laws, holding}
use signers.Main.{Command, Parsed, help, runs, Cli}
use signers.Main.Options.{Flag}
use signers.Main.Runs.{World, code, State, run_main}
use signers.Main.Empty.{CliLaws, history-empty}

abbrev show_none : ℤ → Text
show_none z = []

abbrev calm : World
calm = record {
  dialed = true;
  subscribed = true;
  notified = [];
  polls = 0;
  requests = [];
  logs = returned tt;
}

abbrev empty_state : State demo_geth memory show_none
empty_state = record { node = demo_node; db = holding [] }

-- A command line that takes `--name=` and the text, for options with a text only.
abbrev Values : Type 0
Values = List (Text × Text)

value_of : Values → Text → Text
unfolding text_eq
value_of [] name = []
value_of ((n, v) ∷ values) name =
    let rest = value_of values name in if text_eq n name then v else rest

given_or_default : List Flag → List Text → Values
given_or_default flags (value ∷ rest) = (codes "dsn", value) ∷ []
given_or_default flags [] = (codes "dsn", codes "./blockchain.sqlite?_journal=WAL") ∷ []

named : List (Command Values) → Text → Option (Command Values)
unfolding text_eq
named [] name = none
named (c ∷ cs) name = let rest = named cs name in if text_eq c.name name then some c else rest

chosen : Option (Command Values) → List Text → Parsed Values
unfolding given_or_default
chosen none rest = help
chosen (some c) rest = runs c (given_or_default c.flags rest)

parse_all : List (Command Values) → List Text → Parsed Values
unfolding named chosen
parse_all cmds [] = help
parse_all cmds (name ∷ rest) = chosen (named cmds name) rest

abbrev demo_cli : Cli
demo_cli = record {
  Context = Values;
  options = λ flags rest. some (given_or_default flags rest);
  parse = parse_all;
  string_of = value_of;
  int64_of = λ c name. pos 0;
  bool_of = λ c name. false;
}

named-first :
    (before after : List (Command Values)) (c : Command Values)
    → All (λ (d : Command Values). d.name ≢ c.name) before
    → named (before ++ c ∷ after) c.name ≡ some c
unfolding named
named-first [] after c others = rw (text_eq_refl c.name) refl
named-first (d ∷ before) after c (here, others) = elim (Bool-cases (text_eq d.name c.name)) [
  | inl same ↦ absurd (here (text_eq-eq d.name c.name same))
  | inr differ ↦ rw differ (named-first before after c others)
]

demo_documented : CliLaws demo_cli
unfolding parse_all chosen
demo_documented = record {
  chooses = λ before after c rest context others given.
      let same : given_or_default c.flags rest ≡ context = cc in
      rw (named-first before after c others) (ap (runs c) same);
}

abbrev only_dsn : List Text
only_dsn = codes "x.db" ∷ []

history-empty_example :
    let (e, t) =
      run_main demo_geth memory show_none demo_cli calm (codes "history" ∷ only_dsn) empty_state in
    let (e', t') =
      run_main demo_geth memory show_none demo_cli calm
        (codes "historyfw" ∷ only_dsn)
        empty_state in
    ((e ≢ code 0) × (memory_laws.committed t.db ≡ memory_laws.committed empty_state.db))
    × ((e' ≢ code 0) × (memory_laws.committed t'.db ≡ memory_laws.committed empty_state.db))
unfolding given_or_default
history-empty_example =
    history-empty demo_geth memory memory_laws show_none demo_cli demo_documented calm only_dsn
      (given_or_default [] only_dsn) empty_state refl refl refl refl
