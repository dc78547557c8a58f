-- ===== src/Server/Update.antt =====
-- The message "update" (`handleReceive`, server.cpp): the sender's node list. The receiver takes its
-- own description from it, and connects to the nodes that it does not know.
pub mod Keeps
use nat.Prelude.{
  ℕ, Str, codes, str_eq, to_string, Option, none, some, Bool, true, false, ◌&&◌, List, [], ◌∷◌,
  ◌++◌, if◌then◌else◌,
}
use nat.StdMap.{StdMap, has, add}
use nat.External.{Env}
use nat.Effect.{
  M, pure, raise, gets, require, modify, exception, undefined, ◌>>=◌, ◌>>◌, if◌run◌else◌,
}
use nat.Describe.{nonmap, nonfilter, node_ip, node_port, string_at, is_public}
use nat.Server.State.{Server, add_node, send}
use nat.Server.Messages.{open_connect_msg, proxy_connect_msg}

-- `ip + "_" + std::to_string(port)`.
unfoldable pub endpoint_key : Str → ℕ → Str
endpoint_key ip port = ip ++ 95 ∷ to_string port

-- The endpoint in `seeRemoteIp` and `seeRemotePort`, which the loop changes.
pub record Remote : Type 0 where
  pub ip : Str
  pub port : ℕ

module _ {J : Type 0} (E : Env J) where
  -- The last public node of the list in place of the remote endpoint, if there is one.
  unfoldable pub last_public : Remote → StdMap Str → M (Server J) Remote
  last_public r [] = pure r
  last_public r ((k, v) ∷ hosts) = do
    body ← require (E.parse v)
    open_node ← require (is_public E body)
    r' ←
        if open_node
        run (do
          ip ← require (node_ip E body)
          port ← require (node_port E body)
          pure (record { ip = ip; port = port }))
        else pure r
    last_public r' hosts

  unfoldable pub connect_public : Str → ℕ → M (Server J) (Unit {0})
  connect_public ip port = do
    own ← gets (λ s. s.node_id)
    info ← gets (λ s. s.local_ep_info)
    modify (λ s. record s {
      public_nodes =
          if s.public_flag then add (endpoint_key ip port) s.public_nodes else s.public_nodes;
    })
    send E ip port (open_connect_msg E own info)

  -- A public node is asked to help, and a node that is not public sends on its own too.
  unfoldable pub connect_hidden : Remote → Str → ℕ → J → M (Server J) Remote
  connect_hidden r ip port item = do
    own ← gets (λ s. s.node_id)
    info ← gets (λ s. s.local_ep_info)
    hosts ← gets (λ s. s.host_list)
    r' ← last_public r hosts
    send E r'.ip r'.port (proxy_connect_msg E own item)
    open_self ← require (is_public E info)
    if open_self run pure tt else send E ip port (open_connect_msg E own info)
    pure r'

  unfoldable pub connect : Remote → Str → ℕ → J → M (Server J) Remote
  connect r ip port item = do
    mapping ← require (string_at E (codes "natmapping") item)
    filtering ← require (string_at E (codes "natfiltering") item)
    if str_eq mapping nonmap && str_eq filtering nonfilter
        run (do connect_public ip port; pure r)
        else connect_hidden r ip port item

  -- One entry of the update; `continue` is the plain return of the remote endpoint.
  unfoldable pub update_item : Str → Remote → Str → J → M (Server J) Remote
  update_item sender r k v = do
    own ← gets (λ s. s.node_id)
    hosts ← gets (λ s. s.host_list)
    text ← require (E.get_string v)
    item ← require (E.parse text)
    ip ← require (node_ip E item)
    port ← require (node_port E item)
    if has (endpoint_key ip port) hosts
        run pure r
        else if str_eq own k
        run (do add_node own (E.dump item); pure r)
        else if str_eq ip r.ip
        run (do add_node sender (E.dump item); pure r)
        else connect r ip port item

  unfoldable pub update_items : Str → Remote → List (Str × J) → M (Server J) (Unit {0})
  update_items sender r [] = pure tt
  update_items sender r ((k, v) ∷ entries) = do
    r' ← update_item sender r k v
    update_items sender r' entries

  -- The node's own description. Without one the log statement reads through `end()`.
  unfoldable pub take_own : J → Option J → M (Server J) (Unit {0})
  take_own info none = raise (if E.end_throws info then exception else undefined)
  take_own info (some v) = do
    text ← require (E.get_string v)
    own_info ← require (E.parse text)
    modify (λ s. record s { local_ep_info = own_info })

  unfoldable pub take_update : Str → ℕ → Str → Str → J → M (Server J) Bool
  take_update remote_ip remote_port sender own msg = do
    info ← require (E.at (codes "data") msg)
    take_own info (E.find_field own info)
    entries ← require (E.items info)
    update_items sender (record { ip = remote_ip; port = remote_port }) entries
    pure true

  -- The result says whether the handler goes on to listen again: at an update of the node's own it
  -- returns at once.
  unfoldable pub update : Str → ℕ → Str → J → M (Server J) Bool
  update remote_ip remote_port sender msg = do
    own ← gets (λ s. s.node_id)
    if str_eq sender own run pure false else take_update remote_ip remote_port sender own msg
