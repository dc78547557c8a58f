-- ===== src/Server/Joined.antt =====
-- What a node knows after an "openconnect" (`handleReceive`, server.cpp).
use nat.Prelude.{
  ℕ, ◌^◌, ◌<◌, ◌≤◌, Str, codes, str_eq, ◌==◌, ◌&&◌, some, true, false, List, ◌≡◌, ◌≢◌, refl, ◌∙◌,
  arith, Bool-cases, inl, inr, length, if◌then◌else◌, Option,
}
use nat.External.{Env}
use nat.StdMap.{StdMap, find, has}
use nat.Effect.{done, final, modify, ◌>>=◌, if◌run◌else◌}
use nat.Describe.{string_at}
use nat.Server.State.{Server, add_node, start_receive}
use nat.ManagerHost.{add_new_node}
use nat.Server.Messages.{data_msg, open_connect_msg}
use nat.Server.Connect.{is_moved, open_connect}
use nat.Server.Moved.{described, node_ip-described, node_port-described, find-open_connect}
use nat.Server.Register.{find-insert_self}
use nat.Server.Buffer.{handle_receive-parsed}
use nat.Server.Receive.{
  Datagram, no_error, buffer_size, then_listen, dispatch, typed, parsed, handle_receive,
}

module _ {J : Type 0} (E : Env J) where
  module _ (mapping filtering old_ip : Str) (old_port : ℕ) (rest : List J) where
    -- The sender's description of itself, and with another endpoint in place of the first one.
    abbrev itself : J
    itself = described E mapping filtering rest old_ip old_port

    abbrev seen : Str → ℕ → J
    seen ip port = described E mapping filtering rest ip port

    -- The text that the node has for the sender then.
    abbrev pub joined : Str → ℕ → Str → StdMap Str → Option Str
    joined ip port node hosts =
        if str_eq ip old_ip && port == old_port
        then (if has node hosts then find node hosts else some (E.dump itself))
        else some (E.dump (seen ip port))

    is_moved-same :
        (ip : Str) (port : ℕ) (s : Server J)
        → old_port < 2 ^ 16
        → (str_eq ip old_ip && port == old_port) ≡ true
        → is_moved E ip port itself s ≡ done false s
    unfolding is_moved ◌>>=◌ if◌run◌else◌
    is_moved-same ip port s small same =
        rw
          (
            node_ip-described E mapping filtering old_ip old_port rest,
            node_port-described E mapping filtering old_ip old_port rest small,
          )
          (ground (arith, same))

    unmoved :
        (ip : Str) (port : ℕ) (node : Str) (s : Server J)
        → old_port < 2 ^ 16
        → (str_eq ip old_ip && port == old_port) ≡ true
        → open_connect E ip port node (open_connect_msg E node itself) s
          ≡ add_node node (E.dump itself) s
    unfolding open_connect open_connect_msg data_msg string_at find str_eq ◌>>=◌ if◌run◌else◌
    unmoved ip port node s small same =
        rw
          (
            E.at-obj (codes "data") _ itself refl,
            is_moved-same ip port s small same,
            E.at-obj (codes "nodeID") _ (E.str node) refl,
            E.get_string-str,
          )
          refl

    open_connect-joined :
        (ip : Str) (port : ℕ) (node : Str) (s : Server J)
        → old_port < 2 ^ 16
        → (t : Server J) × (open_connect E ip port node (open_connect_msg E node itself) s
            ≡ done tt t)
          × (find node t.host_list ≡ joined ip port node s.host_list)
    unfolding add_node add_new_node modify
    open_connect-joined ip port node s small =
        elim (Bool-cases (str_eq ip old_ip && port == old_port)) [
          | inl same ↦ (
            final (add_node node (E.dump itself) s),
            unmoved ip port node s small same,
            rw same (find-insert_self E node (E.dump itself) s.host_list),
          )
          | inr moved ↦
              let (run_on, text) =
                find-open_connect E mapping filtering old_ip old_port rest ip port node s small
                  moved in
              (_, run_on, rw moved text)
        ]

    dispatched-open :
        (node : Str) (d : Datagram) (s : Server J)
        → parsed E d (some (open_connect_msg E node itself)) s
          ≡ then_listen E (open_connect E d.ip d.port node (open_connect_msg E node itself)) s
    unfolding parsed typed dispatch open_connect_msg data_msg string_at find str_eq ◌>>=◌
        if◌run◌else◌
    dispatched-open node d s =
        rw
          (
            E.find_field-obj,
            E.get_string-str,
            E.at-obj (codes "nodeID") _ (E.str node) refl,
            E.get_string-str,
          )
          refl

    -- A node gets whole, from another address than its own, an "openconnect" whose data is a
    -- description: two texts for the mapping and the filtering, and a list of endpoints, the first
    -- of which is an address and a port below 2^16. It handles the message to the end, and listens
    -- again. It then has a text for the sender: if the datagram came from the first endpoint of the
    -- description, the text that was there, or else the description; if not, the description with
    -- the endpoint that the datagram came from in place of the first one.
    pub handle_receive-joined :
        (node : Str) (d : Datagram) (s : Server J)
        → old_port < 2 ^ 16
        → d.bytes ≡ E.dump (open_connect_msg E node itself)
        → length d.bytes ≤ buffer_size
        → d.ip ≢ s.local_ip
        → (t : Server J) × (handle_receive E no_error d s ≡ done tt t)
          × (t.receiving ≡ true)
          × (find node t.host_list ≡ joined d.ip d.port node s.host_list)
    unfolding then_listen start_receive ◌>>=◌ if◌run◌else◌
    handle_receive-joined node d s small same fits away =
        let deaf : Server J = record s { receiving = false } in
        let (t, e, text) = open_connect-joined d.ip d.port node deaf small in
        (
          record t { receiving = true },
          handle_receive-parsed E d (open_connect_msg E node itself) s same fits away
              ∙ rw (dispatched-open node d deaf, e) refl,
          refl,
          text,
        )
