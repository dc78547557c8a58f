-- ===== src/Server/Detect.antt =====
-- The message "detect" (`handleReceive`, server.cpp): a node reports the address that it sees for
-- itself, and the server compares it with the address that the datagram came from.
pub mod Keeps
pub mod Handled
use nat.Prelude.{ℕ, Str, codes, str_eq, ◌==◌, to_string, not, ◌||◌, [], ◌∷◌, ◌++◌, if◌then◌else◌}
use nat.External.{Env}
use nat.Effect.{M, gets, require, ◌>>=◌, ◌>>◌, if◌run◌else◌}
use nat.Describe.{endpoint_json, node_json, public_json, node_ip, node_port, string_at}
use nat.Server.State.{Server, add_node, add_check, send, gen_uuid, public_node}
use nat.Server.Messages.{filtering_check_msg}
use nat.Server.Route.{update_route_info}

-- `"filtering_" + time + "_" + ip + "_" + port + "_" + node`.
unfoldable pub check_key : ℕ → Str → ℕ → Str → Str
check_key now ip port node =
    codes "filtering_" ++ (to_string now ++ 95 ∷ (ip ++ 95 ∷ (to_string port ++ 95 ∷ node)))

module _ {J : Type 0} (E : Env J) where
  unfoldable pub mapped_json : Str → ℕ → Str → ℕ → J
  mapped_json remote_ip remote_port local_ip local_port =
      node_json E (codes "mapping") []
        (endpoint_json E remote_ip remote_port ∷ endpoint_json E local_ip local_port ∷ [])

  unfoldable pub add_self : M (Server J) (Unit {0})
  add_self = do
    own ← gets (λ s. s.node_id)
    ip ← gets (λ s. s.local_ip)
    port ← gets (λ s. s.local_port)
    add_node own (E.dump (public_json E ip port))

  -- The public neighbour that is to probe, or the node itself.
  unfoldable pub neighbour : M (Server J) J
  neighbour = do
    own ← gets (λ s. s.node_id)
    text ← public_node E own
    info ← gets (λ s. s.local_ep_info)
    require (E.parse (if str_eq text [] then E.dump info else text))

  -- A probe of the filtering of the node behind `ip` and `port`, and its entry in the time map. The
  -- message has one UUID, and the entry is filed under another.
  unfoldable pub start_check : ℕ → Str → ℕ → Str → M (Server J) (Unit {0})
  start_check now ip port node = do
    own ← gets (λ s. s.node_id)
    near ← neighbour
    near_ip ← require (node_ip E near)
    near_port ← require (node_port E near)
    msg_id ← gen_uuid E
    send E near_ip near_port (filtering_check_msg E own ip port msg_id)
    id ← gen_uuid E
    add_check id (check_key now ip port node)

  unfoldable pub detect_mapped : ℕ → Str → ℕ → Str → Str → ℕ → M (Server J) (Unit {0})
  detect_mapped now remote_ip remote_port node local_ip local_port = do
    add_node node (E.dump (mapped_json remote_ip remote_port local_ip local_port))
    add_self
    start_check now remote_ip remote_port node
    update_route_info E

  unfoldable pub detect_public : Str → ℕ → Str → M (Server J) (Unit {0})
  detect_public remote_ip remote_port node = do
    add_node node (E.dump (public_json E remote_ip remote_port))
    add_self
    update_route_info E

  unfoldable pub detect : ℕ → Str → ℕ → Str → J → M (Server J) (Unit {0})
  detect now remote_ip remote_port node msg = do
    content ← require (E.at (codes "data") msg)
    local_ip ← require (string_at E (codes "localip") content)
    port_text ← require (string_at E (codes "localport") content)
    local_port ← require (E.lexical_cast port_text)
    if not (str_eq remote_ip local_ip) || not (remote_port == local_port)
        run detect_mapped now remote_ip remote_port node local_ip local_port
        else detect_public remote_ip remote_port node
