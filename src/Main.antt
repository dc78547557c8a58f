-- ===== src/Main.antt =====
-- main.cpp: the callbacks of the two subcommands.
pub mod Options
pub mod Run
pub mod Exits
use nat.Prelude.{Str, Option, some, Bool, List}
use nat.External.{Env}
use nat.Effect.{M, require, defined, modify, ◌>>=◌}
use nat.Client.{Packet, client, send_to}
use nat.Server.State.{Server}
use nat.Server.Messages.{bind_msg, detect_msg}
use nat.Server.Start.{start}

module _ {J : Type 0} (E : Env J) where
  -- `bind`: one detect message from a socket of its own.
  unfoldable pub bind : Str → Str → Str → M (List Packet) (Unit {0})
  unfolding send_to bind_msg
  bind remote_server remote_port local_port = do
    to_port ← require (E.lexical_cast remote_port)
    own_port ← require (E.lexical_cast local_port)
    modify (λ out.
        let clienta = client own_port out in
        (send_to E remote_server to_port (E.dump (bind_msg E local_port)) clienta.client_socket).1)

  -- `servermode` up to `io_service.run()`: the node, its first detect message sent. The object holds
  -- no node before the constructor has run. `mainNode` has no value if the flag is not given.
  unfoldable pub servermode : Str → Str → Str → Option Bool → Str → M (Option (Server J)) (Unit {0})
  unfolding start send_to detect_msg
  servermode remote_ip remote_port local_port main_node local_ip = do
    to_port ← require (E.lexical_cast remote_port)
    own_port ← require (E.lexical_cast local_port)
    publicflag ← defined main_node
    let node : Server J = start E remote_ip to_port own_port publicflag local_ip
    let msg : J = detect_msg E node.node_id local_ip local_port
    modify
        (λ _. some (record node { sent = (send_to E remote_ip to_port (E.dump msg) node.sent).1 }))
