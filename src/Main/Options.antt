-- ===== src/Main/Options.antt =====
-- main.cpp: the command line that `main` declares. What reads it is the copy of CLI11, a parameter.
use nat.Prelude.{ℕ, Str, codes, Bool, true, false, none, some, List, [], ◌∷◌}
use nat.StdMap.{StdMap, find}

pub record OptionDecl : Type 0 where
  pub names : Str
  pub description : Str
  pub mandatory : Bool

pub record Subcommand : Type 0 where
  pub name : Str
  pub description : Str
  pub options : List OptionDecl
  pub flags : List OptionDecl

-- `CLI::App`, with `require_subcommand`.
pub record App : Type 0 where
  pub description : Str
  pub require_subcommand : Bool
  pub subcommands : List Subcommand

abbrev required : Str → Str → OptionDecl
required names description = record { names = names; description = description; mandatory = true }

abbrev pub bind_options : Subcommand
bind_options = record {
  name = codes "bind";
  description = codes "bind to the remote system";
  options =
      required (codes "-s,--server") (codes "remote server on public network")
      ∷ required (codes "-P,--remotePort") (codes "the port of remote server")
      ∷ required (codes "-p,--localPort") (codes "the port of local program")
      ∷ [];
  flags = [];
}

abbrev pub servermode_options : Subcommand
servermode_options = record {
  name = codes "servermode";
  description = codes "a udp server for listening";
  options =
      required (codes "-s,--remoteserverip") (codes "remote server on public network")
      ∷ required (codes "-P,--remoteport") (codes "the port of remote server")
      ∷ required (codes "-p,--localport") (codes "the port of remote server")
      ∷ required (codes "-i,--ip") (codes "the port of remote server")
      ∷ [];
  flags =
      record {
        names = codes "-m,--mainnode";
        description = codes "set as a public node";
        mandatory = false;
      }
      ∷ [];
}

abbrev pub app : App
app = record {
  description = codes "tool for hole punching";
  require_subcommand = true;
  subcommands = bind_options ∷ servermode_options ∷ [];
}

-- A subcommand on the command line, with the values of its options and the flags that are given,
-- under their names in the declaration.
pub record Call : Type 0 where
  pub name : Str
  pub values : StdMap Str
  pub flags : StdMap Bool

-- How `CLI::App::parse` ends: the callbacks to run, in order, or a `ParseError` with the code that
-- `exit` gives for it.
pub data Parsed : Type 0 where
  calls : List Call → Parsed
  refused : ℕ → Parsed

abbrev pub Cli : Type 0
Cli = App → List Str → Parsed

-- A `std::string` that no option has set is empty.
unfoldable pub value_of : Str → Call → Str
value_of names call = elim (find names call.values) [ none ↦ [] | some v ↦ v ]
