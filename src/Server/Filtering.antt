-- ===== src/Server/Filtering.antt =====
-- The messages of a filtering probe (`handleReceive`, server.cpp): "filteringcheck" asks a neighbour
-- to call the client, "callclient" is that call, and "callclientRes" is the client's answer.
use nat.Prelude.{ℕ, Str, codes, Option, none, some}
use nat.StdMap.{find}
use nat.External.{Env}
use nat.Effect.{M, pure, gets, require, ◌>>=◌, ◌>>◌}
use nat.Describe.{nonfilter, string_at, port_at}
use nat.Server.State.{Server, assign_node, erase_check, send, send_thrice}
use nat.Server.Messages.{call_client_msg, call_client_res_msg}
use nat.Server.Route.{update_route_info}

module _ {J : Type 0} (E : Env J) where
  unfoldable pub filtering_check : Str → ℕ → J → M (Server J) (Unit {0})
  filtering_check remote_ip remote_port msg = do
    own ← gets (λ s. s.node_id)
    ip ← require (string_at E (codes "ip") msg)
    port ← require (port_at E (codes "port") msg)
    msg_id ← require (string_at E (codes "msgid") msg)
    send E ip port (call_client_msg E own ip port remote_ip remote_port msg_id)

  unfoldable pub call_client : Str → ℕ → J → M (Server J) (Unit {0})
  call_client remote_ip remote_port msg = do
    own ← gets (λ s. s.node_id)
    msg_id ← require (string_at E (codes "msgid") msg)
    ip ← require (string_at E (codes "originip") msg)
    port ← require (port_at E (codes "originport") msg)
    send_thrice E ip port (call_client_res_msg E own remote_ip remote_port msg_id)

  -- `findmsg["natfiltering"] = filtering` on the text of a node that is in the list.
  unfoldable pub mark_filtering : Str → Str → Str → M (Server J) (Unit {0})
  mark_filtering filtering node text = do
    info ← require (E.parse text)
    info' ← require (E.put (codes "natfiltering") (E.str filtering) info)
    assign_node node (E.dump info')

  unfoldable pub confirm : Str → J → Option Str → M (Server J) (Unit {0})
  confirm node msg none = pure tt
  confirm node msg (some text) = do
    mark_filtering nonfilter node text
    msg_id ← require (string_at E (codes "msgid") msg)
    erase_check msg_id

  unfoldable pub call_client_res : J → M (Server J) (Unit {0})
  call_client_res msg = do
    ip ← require (string_at E (codes "ip") msg)
    port ← require (port_at E (codes "port") msg)
    node ← require (string_at E (codes "nodeID") msg)
    hosts ← gets (λ s. s.host_list)
    confirm node msg (find node hosts)
    update_route_info E
