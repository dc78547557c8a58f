-- ===== src/Server/Connect.antt =====
-- The messages of a hole punch (`handleReceive`, server.cpp): "proxyconnect" asks a public node for
-- help, "helpconnect" passes that on, and "openconnect" opens the path.
use nat.Prelude.{ℕ, Str, codes, str_eq, ◌==◌, Bool, true, not, [], ◌∷◌}
use nat.StdMap.{has}
use nat.External.{Env}
use nat.Effect.{M, pure, gets, require, ◌>>=◌, if◌run◌else◌}
use nat.Describe.{endpoint_json, node_ip, node_port, string_at, with_endpoint}
use nat.Server.State.{Server, add_node, assign_node, send, send_thrice}
use nat.Server.Messages.{open_connect_msg, help_connect_msg}

module _ {J : Type 0} (E : Env J) where
  -- How the asked-for node maps and filters, with the endpoint of the node that asks.
  unfoldable pub help_body : J → J → Str → ℕ → J
  help_body mapping filtering ip port = E.obj (
      (codes "endpoint", E.arr (endpoint_json E ip port ∷ []))
      ∷ (codes "natfiltering", filtering)
      ∷ (codes "natmapping", mapping)
      ∷ [])

  unfoldable pub proxy_connect : Str → ℕ → J → M (Server J) (Unit {0})
  proxy_connect remote_ip remote_port msg = do
    own ← gets (λ s. s.node_id)
    content ← require (E.at (codes "data") msg)
    ip ← require (node_ip E content)
    port ← require (node_port E content)
    mapping ← require (E.at (codes "natmapping") content)
    filtering ← require (E.at (codes "natfiltering") content)
    send E ip port (help_connect_msg E own (help_body mapping filtering remote_ip remote_port))

  unfoldable pub help_connect : J → M (Server J) (Unit {0})
  help_connect msg = do
    own ← gets (λ s. s.node_id)
    info ← gets (λ s. s.local_ep_info)
    content ← require (E.at (codes "data") msg)
    ip ← require (node_ip E content)
    port ← require (node_port E content)
    send_thrice E ip port (open_connect_msg E own info)

  -- Whether the sender's endpoint is another than its description says. The port is read last.
  unfoldable pub is_moved : Str → ℕ → J → M (Server J) Bool
  is_moved remote_ip remote_port content = do
    ip ← require (node_ip E content)
    if not (str_eq remote_ip ip)
        run pure true
        else do port ← require (node_port E content); pure (not (remote_port == port))

  -- The description replaces the one that is there, or is added.
  unfoldable pub store_node : Str → J → M (Server J) (Unit {0})
  store_node node info = do
    hosts ← gets (λ s. s.host_list)
    if has node hosts run assign_node node (E.dump info) else add_node node (E.dump info)

  unfoldable pub open_connect : Str → ℕ → Str → J → M (Server J) (Unit {0})
  open_connect remote_ip remote_port node msg = do
    content ← require (E.at (codes "data") msg)
    moved ← is_moved remote_ip remote_port content
    if moved
        run (do
          change ← require (with_endpoint E remote_ip remote_port content)
          store_node node change)
        else do
          sender ← require (string_at E (codes "nodeID") msg)
          add_node sender (E.dump content)
