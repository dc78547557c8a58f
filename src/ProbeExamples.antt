-- ===== src/ProbeExamples.antt =====
-- A concrete probe that is answered and expires, and an update that introduces a node (server.cpp): the
-- theorems at these inputs.
use nat.Prelude.{
  ◌+◌, Str, codes, to_string, digits_value, str_eq, str_lt, true, false, none, some, List, [], ◌∷◌,
  ◌≡◌, refl, arith, All,
}
use nat.StdMap.{StdMap, find, place, insert, erase, assign, IsSorted}
use nat.Effect.{final, done, ◌>>=◌, if◌run◌else◌}
use nat.Client.{send_to}
use nat.Sample.{sample}
use nat.Sample.Codec.{Value, dump, parse}
use nat.Describe.{
  nonfilter, endpoint_json, node_json, public_json, string_at, port_at, first_endpoint, node_ip,
  node_port, is_public,
}
use nat.ManagerHost.{public_node_of, get_public_node}
use nat.Server.State.{
  Server, with_hosts, with_checks, assign_node, add_check, erase_check, send, gen_uuid, public_node,
}
use nat.Server.Start.{start}
use nat.Server.Messages.{
  update_msg, hosts_json, data_msg, filtering_check_msg, call_client_res_msg, open_connect_msg,
}
use nat.Server.Detect.{check_key, neighbour, start_check}
use nat.Server.Route.{notify, update_route_info}
use nat.Server.Filtering.{mark_filtering, confirm, call_client_res}
use nat.Server.Timer.{is_filter, check_entry}
use nat.Server.Update.{endpoint_key, update}
use nat.Server.Route.Recipients.{mailed}
use nat.Server.Introduced.{Entry, others, IsNew, table, public_text}
use nat.Server.Updated.{update-others}
use nat.Server.Unconfirmed.{marked, marked_text, check_entry-answered}
use nat.Examples.{public_server}

abbrev fields : StdMap Value
fields =
    (codes "endpoint", sample.arr (endpoint_json sample (codes "9.9.9.9") 4000 ∷ []))
    ∷ (codes "natfiltering", sample.str [])
    ∷ (codes "natmapping", sample.str [])
    ∷ []

abbrev hidden_text : Str
hidden_text = sample.dump (sample.obj fields)

abbrev asking : Server Value
asking = with_hosts ((codes "n", hidden_text) ∷ []) public_server

abbrev probing_server : Server Value
probing_server = final (start_check sample 1000 (codes "9.9.9.9") 4000 (codes "n") asking)

probe_started :
    start_check sample 1000 (codes "9.9.9.9") 4000 (codes "n") asking ≡ done tt probing_server
unfolding start_check neighbour public_node get_public_node public_node_of is_public node_ip
    node_port first_endpoint string_at port_at start public_json node_json endpoint_json dump parse
    find str_eq gen_uuid send send_to filtering_check_msg add_check with_checks with_hosts insert
    place digits_value ◌>>=◌ if◌run◌else◌
probe_started = refl

abbrev probe_answer : Value
probe_answer = call_client_res_msg sample (codes "n") (codes "7") 70 (sample.uuid asking.drawn)

abbrev answered_server : Server Value
answered_server = final (call_client_res sample probe_answer probing_server)

probe_answer_read : call_client_res sample probe_answer probing_server ≡ done tt answered_server
unfolding start_check neighbour public_node get_public_node public_node_of is_public node_ip
    node_port first_endpoint string_at port_at start public_json node_json endpoint_json dump parse
    find str_eq str_lt gen_uuid send send_to filtering_check_msg add_check with_checks with_hosts
    insert place digits_value call_client_res call_client_res_msg confirm mark_filtering assign_node
    assign erase_check erase update_route_info notify update_msg hosts_json data_msg ◌>>=◌
    if◌run◌else◌
probe_answer_read = refl

no_check : IsSorted asking.f_ck_time_map
unfolding with_hosts start
no_check = tt

not_filed : find (sample.uuid (asking.drawn + 1)) asking.f_ck_time_map ≡ none
unfolding with_hosts start find
not_filed = refl

other_uuid : str_eq (sample.uuid asking.drawn) (sample.uuid (asking.drawn + 1)) ≡ false
unfolding with_hosts start str_eq
other_uuid = refl

hidden_found : find (codes "n") probing_server.host_list ≡ some hidden_text
unfolding start_check neighbour public_node get_public_node public_node_of is_public node_ip
    node_port first_endpoint string_at port_at start public_json node_json endpoint_json dump parse
    find str_eq gen_uuid send send_to filtering_check_msg add_check with_checks with_hosts insert
    place digits_value ◌>>=◌ if◌run◌else◌
hidden_found = refl

check_entry-answered_example :
    (find (codes "n") answered_server.host_list ≡ some (marked_text sample nonfilter fields))
    × (find (sample.uuid (asking.drawn + 1)) answered_server.f_ck_time_map
        ≡ some (check_key 1000 (codes "9.9.9.9") 4000 (codes "n")))
    × (find
          (codes "n")
          (final (
            check_entry sample 1021
              (sample.uuid (asking.drawn + 1))
              (check_key 1000 (codes "9.9.9.9") 4000 (codes "n"))
              answered_server)).host_list
        ≡ some (marked_text sample is_filter (marked sample nonfilter fields)))
check_entry-answered_example =
    check_entry-answered sample 1000 (codes "9.9.9.9") 4000 (codes "n") 1021 hidden_text (codes "7")
      70 fields asking probing_server answered_server (omega arith) (omega arith) (omega arith)
      no_check not_filed other_uuid probe_started hidden_found
      (sample.parse-dump (sample.obj fields)) probe_answer_read refl

-- An update that introduces "a".
abbrev introduced : List Entry
introduced =
    (codes "a", codes "3.3.3.3", 5000) ∷ (public_server.node_id, codes "1.1.1.1", 6000) ∷ []

introduced-IsSorted : IsSorted (table sample introduced)
unfolding table start str_lt
introduced-IsSorted = ((refl, tt), (tt, tt))

introduced-own :
    find public_server.node_id (table sample introduced)
    ≡ some (public_text sample (codes "1.1.1.1") 6000)
unfolding table find start str_eq
introduced-own = refl

introduced-IsNew :
    All (IsNew public_server.node_id (codes "9.9.9.9") public_server.host_list) introduced
unfolding start endpoint_key str_eq to_string find
introduced-IsNew = (
  record { small = omega arith; unknown = refl; plain = refl; elsewhere = refl },
  (record { small = omega arith; unknown = refl; plain = refl; elsewhere = refl }, tt),
)

other_sender : str_eq (codes "b") public_server.node_id ≡ false
unfolding start str_eq
other_sender = refl

update-others_example :
    (t : Server Value) × (update sample
        (codes "9.9.9.9")
        4000
        (codes "b")
        (update_msg sample (codes "b") (table sample introduced))
        public_server
      ≡ done true t)
    × (t.local_ep_info ≡ public_json sample (codes "1.1.1.1") 6000)
    × (t.sent
        ≡ mailed sample
            (sample.dump (
              open_connect_msg sample public_server.node_id
                (public_json sample (codes "1.1.1.1") 6000)))
            (others public_server.node_id introduced)
            public_server.sent)
update-others_example =
    update-others sample (codes "9.9.9.9") 4000 (codes "b") (codes "1.1.1.1") 6000 introduced
      public_server other_sender introduced-IsSorted introduced-own introduced-IsNew
