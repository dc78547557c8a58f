-- ===== src/MainExamples.antt =====
-- Concrete command lines of the tool (main.cpp): the theorems at these inputs.
use nat.Prelude.{Str, codes, digits_value, stoi, str_eq, true, none, some, Bool, [], ◌∷◌, ◌≡◌, refl}
use nat.StdMap.{StdMap, find}
use nat.Effect.{done}
use nat.Sample.{sample}
use nat.Sample.Codec.{Value}
use nat.Sample.Boosted.{lexical_cast}
use nat.Main.Options.{Call, calls, Cli, value_of}
use nat.Server.Start.{start}
use nat.Server.Messages.{bind_msg, detect_msg}
use nat.Main.Run.{exits, Process, serving, main}
use nat.Main.Exits.{started, main-servermode, main-bind}

abbrev idle_process : Process Value
idle_process = record { sent = []; node = none }

-- A reader of command lines that always finds the one call.
abbrev only : Call → Cli
only call declared argv = calls (call ∷ [])

abbrev flagged : StdMap Bool
flagged = (codes "-m,--mainnode", true) ∷ []

abbrev port_values : StdMap Str
port_values =
    (codes "-s,--remoteserverip", codes "1.1.1.1")
    ∷ (codes "-P,--remoteport", codes "80")
    ∷ (codes "-p,--localport", codes "90")
    ∷ []

abbrev call_of : Str → StdMap Str → StdMap Bool → Cli
call_of name values flags = only (record { name = name; values = values; flags = flags })

-- Both ports are numbers, and the flag is given.
main-servermode_example :
    main sample (call_of (codes "servermode") port_values flagged) [] idle_process
    ≡ done serving (record idle_process {
      node = some (started sample (codes "1.1.1.1") 80 90 (codes "90") true []);
    })
unfolding value_of find str_eq lexical_cast stoi digits_value
main-servermode_example =
    main-servermode sample (call_of (codes "servermode") port_values flagged) [] port_values flagged
      idle_process refl

-- Both ports are numbers, and the server is a numeric address.
abbrev bind_values : StdMap Str
bind_values =
    (codes "-s,--server", codes "1.1.1.1")
    ∷ (codes "-P,--remotePort", codes "80")
    ∷ (codes "-p,--localPort", codes "90")
    ∷ []

main-bind_example :
    main sample (call_of (codes "bind") bind_values []) [] idle_process
    ≡ done (exits 0) (record idle_process {
      sent =
          record {
            ip = codes "1.1.1.1";
            port = 80;
            body = sample.dump (bind_msg sample (codes "90"));
          }
          ∷ [];
    })
unfolding value_of find str_eq lexical_cast stoi digits_value
main-bind_example =
    main-bind sample (call_of (codes "bind") bind_values []) [] bind_values [] idle_process refl

-- The first message of the node.
sent_detect :
    (started sample (codes "1.1.1.1") 80 90 (codes "90") true []).sent
    ≡ record {
      ip = codes "1.1.1.1";
      port = 80;
      body = sample.dump (detect_msg sample (sample.uuid 0) [] (codes "90"));
    }
      ∷ []
unfolding started start str_eq
sent_detect = refl
