-- ===== src/Server/Detect/Keeps.antt =====
-- A property that what the handling of "detect" (server.cpp) does to the state keeps is kept by it.
use nat.Prelude.{ℕ, Str, [], ◌∷◌}
use nat.StdMap.{StdMap}
use nat.External.{Env}
use nat.Effect.Keeps.{Keeps, Keeps-pure, Keeps-require, Keeps-if, Keeps-bind, keeps_rules}
use nat.ManagerHost.{get_public_node, public_node_of}
use nat.Server.State.{Server, add_node, add_check, send, gen_uuid, public_node}
use nat.Server.Route.{notify, update_route_info}
use nat.Server.Detect.{
  check_key, add_self, neighbour, start_check, detect_mapped, detect_public, detect,
}

module _ {J : Type 0} (E : Env J) where
  module _ {P : Server J → Type 0} where
    pub Keeps-public_node_of : (id : Str) (hosts : StdMap Str) → Keeps P (public_node_of E id hosts)
    unfolding public_node_of
    Keeps-public_node_of id [] = search keeps_rules
    Keeps-public_node_of id ((k, v) ∷ hosts) = Keeps-bind _ _ (Keeps-require _) λ node.
        Keeps-bind _ _ (Keeps-require _)
          λ open_node. Keeps-if _ _ _ (Keeps-pure v) (Keeps-public_node_of id hosts)

    Keeps-public_node : (id : Str) → Keeps P (public_node E id)
    unfolding public_node get_public_node
    Keeps-public_node id = search (keeps_rules, Keeps-public_node_of)

    Keeps-neighbour : Keeps P (neighbour E)
    unfolding neighbour
    Keeps-neighbour = search (keeps_rules, Keeps-public_node)

    pub Keeps-notify :
        ((to : Str) (at : ℕ) (msg : J) → Keeps P (send E to at msg))
        → (msg : J) (own : Str) (hosts : StdMap Str) → Keeps P (notify E msg own hosts)
    unfolding notify
    Keeps-notify sends msg own [] = search keeps_rules
    Keeps-notify sends msg own ((k, v) ∷ hosts) = Keeps-bind _ _ (Keeps-require _) λ item.
        Keeps-bind _ _ (search (keeps_rules, sends) depth 12) λ _. Keeps-notify sends msg own hosts

    pub Keeps-update_route_info :
        ((to : Str) (at : ℕ) (msg : J) → Keeps P (send E to at msg)) → Keeps P (update_route_info E)
    unfolding update_route_info
    Keeps-update_route_info sends = search (keeps_rules, Keeps-notify sends)

  module _ {P : Server J → Type 0} (now : ℕ) (ip : Str) (port : ℕ)
      (sends : (to : Str) (at : ℕ) (msg : J) → Keeps P (send E to at msg))
      (check : (id node : Str) → Keeps P (add_check id (check_key now ip port node)))
      (draw : Keeps P (gen_uuid E)) where
    pub Keeps-start_check : (node : Str) → Keeps P (start_check E now ip port node)
    unfolding start_check
    Keeps-start_check node = search (keeps_rules, sends, check, draw, Keeps-neighbour) depth 12

  -- What a "detect" that comes at `now` from `ip` and `port` does to the state.
  pub record IsListed (P : Server J → Type 0) (now : ℕ) (ip : Str) (port : ℕ) : Type 0 where
    pub add : (id info : Str) → Keeps P (add_node id info)
    pub sends : (to : Str) (at : ℕ) (msg : J) → Keeps P (send E to at msg)
    pub check : (id node : Str) → Keeps P (add_check id (check_key now ip port node))
    pub draw : Keeps P (gen_uuid E)

  module _ {P : Server J → Type 0} {now : ℕ} {ip : Str} {port : ℕ}
      (l : IsListed P now ip port) where
    open l use {add, sends, check, draw}

    Keeps-add_self : Keeps P (add_self E)
    unfolding add_self
    Keeps-add_self = search (keeps_rules, add) depth 12

    Keeps-detect_mapped :
        (node local_ip : Str) (local_port : ℕ)
        → Keeps P (detect_mapped E now ip port node local_ip local_port)
    unfolding detect_mapped
    Keeps-detect_mapped node local_ip local_port =
        search
          (
            keeps_rules,
            add,
            Keeps-add_self,
            Keeps-start_check now ip port sends check draw,
            Keeps-update_route_info sends,
          )
          depth 12

    Keeps-detect_public : (to : Str) (at : ℕ) (node : Str) → Keeps P (detect_public E to at node)
    unfolding detect_public
    Keeps-detect_public to at node =
        search (keeps_rules, add, Keeps-add_self, Keeps-update_route_info sends) depth 12

    pub Keeps-detect : (node : Str) (msg : J) → Keeps P (detect E now ip port node msg)
    unfolding detect
    Keeps-detect node msg = search (keeps_rules, Keeps-detect_mapped, Keeps-detect_public) depth 12
