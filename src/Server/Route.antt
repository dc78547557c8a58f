-- ===== src/Server/Route.antt =====
-- `udpServer::updateRouteInfo` (server.cpp): the node list goes to every node in it.
pub mod Recipients
pub mod Mailed
use nat.Prelude.{Str, str_eq, [], ◌∷◌}
use nat.StdMap.{StdMap}
use nat.External.{Env}
use nat.Effect.{M, pure, gets, require, ◌>>=◌, ◌>>◌, if◌run◌else◌}
use nat.Describe.{node_ip, node_port}
use nat.Server.State.{Server, send}
use nat.Server.Messages.{update_msg}

module _ {J : Type 0} (E : Env J) where
  unfoldable pub notify : J → Str → StdMap Str → M (Server J) (Unit {0})
  notify msg own [] = pure tt
  notify msg own ((k, v) ∷ hosts) = do
    item ← require (E.parse v)
    if str_eq k own
        run pure tt
        else do ip ← require (node_ip E item); port ← require (node_port E item); send E ip port msg
    notify msg own hosts

  unfoldable pub update_route_info : M (Server J) (Unit {0})
  update_route_info = do
    own ← gets (λ s. s.node_id)
    hosts ← gets (λ s. s.host_list)
    notify (update_msg E own hosts) own hosts
