-- ===== src/Main.antt =====
-- main.go: the commands of the program, their options, and what each of them runs.
pub mod Options
pub mod Runs
pub mod Empty
pub mod Tests
use signers.Base.{ℕ, Bool, true, false, List, [], ◌∷◌, ◌++◌, Option, none, some, if◌then◌else◌}
use signers.Base.Int.{ℤ, pos}
use signers.Base.Text.{Text, codes, text_eq}
use signers.Main.Options.{Value, text, number, switch, Flag}

-- What a command calls, with the arguments of the call.
pub data Action : Type 0 where
  monitor_signers_ws : Text → ℤ → Action
  monitor_signers : Text → ℤ → ℤ → Action
  display_peers_info : Text → Action
  filter_logs : Action
  serve_signers : Text → Text → ℤ → Action
  history_backwards : Text → Text → Bool → Action
  history_forward : Text → Text → Bool → Action

pub record Command (Context : Type 0) : Type 0 where
  pub name : Text
  pub usage : Text
  pub usage_text : Text
  pub flags : List Flag
  pub action : Context → Action

-- What becomes of the arguments: an error, the help, or a command with its options.
pub data Parsed (Context : Type 0) : Type 0 where
  malformed : Parsed Context
  help : Parsed Context
  runs : Command Context → Context → Parsed Context

-- urfave/cli: the options of a command from the arguments after its name, or an error; what it makes
-- of all arguments; and how an action reads an option of its context. No law is assumed here.
pub record Cli : Type 1 where
  pub Context : Type 0
  pub options : List Flag → List Text → Option Context
  pub parse : List (Command Context) → List Text → Parsed Context
  pub string_of : Context → Text → Text
  pub int64_of : Context → Text → ℤ
  pub bool_of : Context → Text → Bool

abbrev local_node_http : Text
local_node_http = codes "http://127.0.0.1:22000"

abbrev local_node_ws : Text
local_node_ws = codes "ws://127.0.0.1:22001"

abbrev url_flag : Text → Text → Flag
url_flag url usage = record {
  name = codes "url";
  aliases = codes "u" ∷ [];
  default = text url;
  usage = usage;
}

abbrev blocks_flag : Text → Flag
blocks_flag usage = record {
  name = codes "blocks";
  aliases = codes "b" ∷ [];
  default = number (pos 10);
  usage = usage;
}

abbrev dsn_flag : Flag
dsn_flag = record {
  name = codes "dsn";
  aliases = codes "d" ∷ [];
  default = text (codes "./blockchain.sqlite?_journal=WAL");
  usage = codes "dsn of the SQLite database";
}

abbrev stats_flag : Flag
stats_flag = record {
  name = codes "stats";
  aliases = codes "s" ∷ [];
  default = switch false;
  usage = codes "dsn of the SQLite database";
}

module _ (cli : Cli) where
  open cli use {Context, string_of, int64_of, bool_of}

  unfoldable pub monitor_ws_cmd : Command Context
  monitor_ws_cmd = record {
    name = codes "monitor";
    usage = codes "monitor the signers activity via WebSockets events";
    usage_text = codes "signers monitor [options]";
    flags =
        url_flag local_node_ws (codes "ws url of the endpoint of blockchain node")
        ∷ blocks_flag (codes "number of blocks in the past to process")
        ∷ [];
    action = λ c. monitor_signers_ws (string_of c (codes "url")) (int64_of c (codes "blocks"));
  }

  unfoldable pub monitor_cmd : Command Context
  monitor_cmd = record {
    name = codes "poll";
    usage = codes "monitor the signers activity via HTTP polling";
    usage_text = codes "signers poll [options]";
    flags =
        url_flag local_node_http (codes "url of the endpoint of blockchain node")
        ∷ blocks_flag (codes "number of blocks in the past to process before starting")
        ∷ (record {
          name = codes "refresh";
          aliases = codes "r" ∷ [];
          default = number (pos 2);
          usage =
              codes "refresh interval for presentation. All blocks are processed "
              ++ codes "independent of this value";
        })
        ∷ [];
    action = λ c.
        monitor_signers (string_of c (codes "url")) (int64_of c (codes "blocks"))
          (int64_of c (codes "refresh"));
  }

  unfoldable pub display_peers_cmd : Command Context
  display_peers_cmd = record {
    name = codes "peers";
    usage = codes "display peers information";
    usage_text = [];
    flags = url_flag local_node_http (codes "url of the endpoint of blockchain node") ∷ [];
    action = λ c. display_peers_info (string_of c (codes "url"));
  }

  unfoldable pub logfilter_cmd : Command Context
  logfilter_cmd = record {
    name = codes "logfilter";
    usage = codes "display filtered log information";
    usage_text = [];
    flags = [];
    action = λ c. filter_logs;
  }

  unfoldable pub serve_cmd : Command Context
  serve_cmd = record {
    name = codes "serve";
    usage = codes "run a web server to display signers behaviour in real time";
    usage_text = codes "signers serve [options]";
    flags =
        url_flag local_node_ws (codes "url of the endpoint of blockchain node")
        ∷ (record {
          name = codes "ip";
          aliases = codes "i" ∷ [];
          default = text (codes "0.0.0.0");
          usage = codes "IP address of the web server";
        })
        ∷ (record {
          name = codes "port";
          aliases = codes "p" ∷ [];
          default = number (pos 8080);
          usage = codes "port of the IP address for the web server";
        })
        ∷ [];
    action = λ c.
        serve_signers (string_of c (codes "url")) (string_of c (codes "ip"))
          (int64_of c (codes "port"));
  }

  unfoldable pub history_cmd : Command Context
  history_cmd = record {
    name = codes "history";
    usage =
        codes "download blockchain headers into SQLite database, from "
        ++ codes "current towards genesis";
    usage_text = codes "signers poll [options]";
    flags =
        url_flag local_node_http (codes "url of the endpoint of blockchain node")
        ∷ dsn_flag
        ∷ stats_flag
        ∷ [];
    action = λ c.
        history_backwards (string_of c (codes "url")) (string_of c (codes "dsn"))
          (bool_of c (codes "stats"));
  }

  unfoldable pub history_forward_cmd : Command Context
  history_forward_cmd = record {
    name = codes "historyfw";
    usage =
        codes "download blockchain headers into SQLite database, from "
        ++ codes "newest stored towards current";
    usage_text = codes "signers poll [options]";
    flags =
        url_flag local_node_http (codes "url of the endpoint of blockchain node")
        ∷ dsn_flag
        ∷ stats_flag
        ∷ [];
    action = λ c.
        history_forward (string_of c (codes "url")) (string_of c (codes "dsn"))
          (bool_of c (codes "stats"));
  }

  unfoldable pub commands : List (Command Context)
  unfolding monitor_ws_cmd monitor_cmd display_peers_cmd logfilter_cmd serve_cmd history_cmd
      history_forward_cmd
  commands =
      monitor_ws_cmd ∷ monitor_cmd ∷ display_peers_cmd ∷ logfilter_cmd ∷ serve_cmd ∷ history_cmd
      ∷ history_forward_cmd ∷ []
