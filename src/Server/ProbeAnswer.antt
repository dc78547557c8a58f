-- ===== src/Server/ProbeAnswer.antt =====
-- A filtering probe from end to end (server.cpp): "filteringcheck" at the neighbour, "callclient" at
-- the client, and "callclientRes" back at the node that asked.
use nat.Prelude.{ℕ, ◌^◌, ◌<◌, Str, codes, str_eq, some, ◌≡◌, refl}
use native.Mathlib.Nat.{mod-eq_of_lt}
use nat.External.{Env, with_field}
use nat.StdMap.{StdMap, find, assign, erase}
use nat.Effect.{done, ◌>>=◌}
use nat.Describe.{nonfilter, string_at, port_at}
use nat.Server.State.{Server, with_hosts, with_checks, assign_node, erase_check, send, send_thrice}
use nat.Server.Messages.{filtering_check_msg, call_client_msg, call_client_res_msg}
use nat.Server.Route.{update_route_info}
use nat.Server.Filtering.{filtering_check, call_client, mark_filtering, confirm, call_client_res}

module _ {J : Type 0} (E : Env J) where
  -- The neighbour calls the client, and names the node that asked as the origin.
  filtering_check-sends :
      (own ip id : Str) (port : ℕ) (rip : Str) (rport : ℕ) (s : Server J)
      → port < 2 ^ 16
      → filtering_check E rip rport (filtering_check_msg E own ip port id) s
        ≡ send E ip port (call_client_msg E s.node_id ip port rip rport id) s
  unfolding filtering_check filtering_check_msg string_at port_at find str_eq ◌>>=◌
  filtering_check-sends own ip id port rip rport s small =
      rw
        (
          E.at-obj (codes "ip") _ (E.str ip) refl,
          E.get_string-str,
          E.at-obj (codes "port") _ (E.num port) refl,
          E.get_port-num,
          E.at-obj (codes "msgid") _ (E.str id) refl,
          E.get_string-str,
          mod-eq_of_lt small,
        )
        refl

  -- The client answers the origin three times, with the neighbour's endpoint as it sees it.
  call_client-sends :
      (own ip id oip : Str) (port oport : ℕ) (nip : Str) (nport : ℕ) (s : Server J)
      → oport < 2 ^ 16
      → call_client E nip nport (call_client_msg E own ip port oip oport id) s
        ≡ send_thrice E oip oport (call_client_res_msg E s.node_id nip nport id) s
  unfolding call_client call_client_msg string_at port_at find str_eq ◌>>=◌
  call_client-sends own ip id oip port oport nip nport s small =
      rw
        (
          E.at-obj (codes "msgid") _ (E.str id) refl,
          E.get_string-str,
          E.at-obj (codes "originip") _ (E.str oip) refl,
          E.get_string-str,
          E.at-obj (codes "originport") _ (E.num oport) refl,
          E.get_port-num,
          mod-eq_of_lt small,
        )
        refl

  -- The node that asked, once it has read an answer about a client that it knows.
  unfoldable pub confirmed : Str → Str → StdMap J → Server J → Server J
  confirmed node id fs s = with_checks (erase id s.f_ck_time_map) (
      with_hosts
        (assign node (E.dump (E.obj (with_field (codes "natfiltering") (E.str nonfilter) fs)))
          s.host_list)
        s)

  confirm-known :
      (node id nip text : Str) (nport : ℕ) (fs : StdMap J) (s : Server J)
      → E.parse text ≡ some (E.obj fs)
      → confirm E node (call_client_res_msg E node nip nport id) (some text) s
        ≡ done tt (confirmed node id fs s)
  unfolding confirm confirmed mark_filtering erase_check assign_node with_checks with_hosts
      call_client_res_msg string_at find str_eq ◌>>=◌
  confirm-known node id nip text nport fs s read =
      rw (read, E.put-obj, E.at-obj (codes "msgid") _ (E.str id) refl, E.get_string-str) refl

  pub call_client_res-confirms :
      (node id nip text : Str) (nport : ℕ) (fs : StdMap J) (s : Server J)
      → find node s.host_list ≡ some text
      → E.parse text ≡ some (E.obj fs)
      → call_client_res E (call_client_res_msg E node nip nport id) s
        ≡ update_route_info E (confirmed node id fs s)
  unfolding call_client_res call_client_res_msg string_at port_at find str_eq ◌>>=◌
  call_client_res-confirms node id nip text nport fs s known read =
      rw
        (
          E.at-obj (codes "ip") _ (E.str nip) refl,
          E.get_string-str,
          E.at-obj (codes "port") _ (E.num nport) refl,
          E.get_port-num,
          E.at-obj (codes "nodeID") _ (E.str node) refl,
          E.get_string-str,
          known,
          confirm-known node id nip text nport fs s read,
        )
        refl

  -- A probe's ID comes back: of a "filteringcheck" from `oip` and `oport` about the client at `ip` and
  -- `port`, the neighbour makes one call to the client with the ID and the origin; of that call, from
  -- wherever it comes, the client makes three answers with the ID to the origin; and a node that gets
  -- one, and has the client's description, marks it "Nonfilter", erases what is filed under the ID,
  -- and sends its list to the others.
  pub probe_answered :
      (own id oip ip nip text : Str) (oport port nport : ℕ) (fs : StdMap J)
      (neighbour client asker : Server J)
      → oport < 2 ^ 16
      → port < 2 ^ 16
      → find client.node_id asker.host_list ≡ some text
      → E.parse text ≡ some (E.obj fs)
      → (filtering_check E oip oport (filtering_check_msg E own ip port id) neighbour
          ≡ send E ip port (call_client_msg E neighbour.node_id ip port oip oport id) neighbour)
        × (call_client E nip nport (call_client_msg E neighbour.node_id ip port oip oport id) client
            ≡ send_thrice E oip oport (call_client_res_msg E client.node_id nip nport id) client)
        × (call_client_res E (call_client_res_msg E client.node_id nip nport id) asker
            ≡ update_route_info E (confirmed client.node_id id fs asker))
  probe_answered own id oip ip nip text oport port nport fs neighbour client asker o p known read =
      (
        filtering_check-sends own ip id port oip oport neighbour p,
        call_client-sends neighbour.node_id ip id oip port oport nip nport client o,
        call_client_res-confirms client.node_id id nip text nport fs asker known read,
      )
