-- ===== src/MessageExamples.antt =====
-- Single messages and one heartbeat too many (server.cpp) at concrete inputs: the theorems on them.
use nat.Prelude.{
  Str, codes, to_string, digits_value, stoi, str_eq, str_lt, true, none, some, [], ◌∷◌, ◌≡◌, refl,
  arith, length, ◌≤◌, if◌then◌else◌,
}
use nat.StdMap.{find, has, place, insert, erase, assign, IsSorted}
use nat.Effect.{final, done, ◌>>=◌, if◌run◌else◌}
use nat.Client.{send_to}
use nat.Sample.{sample}
use nat.Sample.Codec.{Value, dump, parse}
use nat.Describe.{
  endpoint_json, node_json, public_json, string_at, port_at, first_endpoint, node_ip, node_port,
  is_public,
}
use nat.ManagerHost.{add_new_node, public_node_of, get_public_node}
use nat.Sample.Boosted.{split, lexical_cast}
use nat.Server.State.{
  Server, with_hosts, with_ticker_num, with_checks, erase_ticker, send, send_thrice, add_node,
  assign_node, add_check, gen_uuid, public_node,
}
use nat.Server.Receive.{buffer_size}
use nat.Server.Start.{start}
use nat.Server.Messages.{
  update_msg, hosts_json, data_msg, filtering_check_msg, call_client_msg, call_client_res_msg,
  detect_msg, local_json,
}
use nat.Server.Detect.{
  check_key, mapped_json, add_self, neighbour, start_check, detect_mapped, detect_public, detect,
}
use nat.Server.Filtering.{filtering_check, call_client, call_client_res}
use nat.Server.Route.{notify, update_route_info}
use nat.Server.Timer.{prune_hosts, expire_ticker}
use nat.Server.Ticker.{ticker_key}
use nat.Server.Register.{detected, find-detect}
use nat.Server.ProbeAnswer.{confirmed, probe_answered}
use nat.Server.Prune.{CountedUnder, expire_ticker-drops}
use nat.Examples.{public_server}

abbrev pub there_ip : Str
there_ip = codes "9.9.9.9"

-- A node behind a NAT makes itself known.
abbrev pub known : Server Value
known = final (
    detect sample 1000 there_ip 4000 (codes "n")
      (detect_msg sample (codes "n") (codes "10.0.0.5") (to_string 5000)) public_server)

pub detected_n :
    detect sample 1000 there_ip 4000
      (codes "n")
      (detect_msg sample (codes "n") (codes "10.0.0.5") (to_string 5000))
      public_server
    ≡ done tt known
unfolding send_to endpoint_json node_json public_json string_at port_at first_endpoint node_ip
    node_port is_public add_new_node public_node_of get_public_node digits_value to_string stoi
    str_eq str_lt split lexical_cast dump parse check_key mapped_json add_self neighbour start_check
    detect_mapped detect_public detect hosts_json data_msg update_msg filtering_check_msg local_json
    detect_msg notify update_route_info start with_hosts add_node assign_node with_checks add_check
    send gen_uuid public_node find place insert assign ◌>>=◌ if◌run◌else◌
detected_n = refl

-- What the node answers it with.
abbrev pub reply : Str
reply = sample.dump (update_msg sample public_server.node_id known.host_list)

pub reply-fits : length reply ≤ buffer_size
unfolding send_to endpoint_json node_json public_json string_at port_at first_endpoint node_ip
    node_port is_public add_new_node public_node_of get_public_node digits_value to_string stoi
    str_eq str_lt split lexical_cast dump parse check_key mapped_json add_self neighbour start_check
    detect_mapped detect_public detect hosts_json data_msg update_msg filtering_check_msg local_json
    detect_msg notify update_route_info start with_hosts add_node assign_node with_checks add_check
    send gen_uuid public_node find place insert assign ◌>>=◌ if◌run◌else◌
reply-fits = omega arith

find-detect_example : find (codes "n") known.host_list ≡ (
    if has (codes "n") public_server.host_list
    then find (codes "n") public_server.host_list
    else some (sample.dump (detected sample there_ip 4000 (codes "10.0.0.5") 5000)))
find-detect_example =
    find-detect sample 1000 there_ip 4000 (codes "n") (codes "10.0.0.5") 5000 public_server known
      (omega arith) detected_n

-- A probe about the public node itself, which the asker knows.
abbrev bare : Str
bare = sample.dump (sample.obj [])

abbrev asker : Server Value
asker = with_hosts ((public_server.node_id, bare) ∷ []) public_server

asker-knows : find public_server.node_id asker.host_list ≡ some bare
unfolding find str_eq with_hosts start
asker-knows = refl

probe_answered_example :
    (filtering_check sample
        (codes "8")
        80
        (filtering_check_msg sample (codes "o") there_ip 4000 (codes "m"))
        public_server
      ≡ send sample there_ip 4000
          (call_client_msg sample public_server.node_id there_ip 4000 (codes "8") 80 (codes "m"))
          public_server)
    × (call_client sample
          (codes "7")
          70
          (call_client_msg sample public_server.node_id there_ip 4000 (codes "8") 80 (codes "m"))
          public_server
        ≡ send_thrice sample
            (codes "8")
            80
            (call_client_res_msg sample public_server.node_id (codes "7") 70 (codes "m"))
            public_server)
    × (call_client_res sample
          (call_client_res_msg sample public_server.node_id (codes "7") 70 (codes "m"))
          asker
        ≡ update_route_info sample (confirmed sample public_server.node_id (codes "m") [] asker))
probe_answered_example =
    probe_answered sample (codes "o") (codes "m") (codes "8") there_ip (codes "7") bare 80 4000 70
      [] public_server public_server asker (omega arith) (omega arith) asker-knows
      (sample.parse-dump (sample.obj []))

-- A node that has not answered sixty heartbeats.
abbrev silent_text : Str
silent_text = sample.dump (public_json sample there_ip 4000)

abbrev waiting_server : Server Value
waiting_server =
    with_ticker_num ((ticker_key there_ip 4000, 60) ∷ [])
      (with_hosts ((codes "n", silent_text) ∷ []) public_server)

abbrev pruned : Server Value
pruned = final (expire_ticker sample (ticker_key there_ip 4000) 60 waiting_server)

expired : expire_ticker sample (ticker_key there_ip 4000) 60 waiting_server ≡ done true pruned
unfolding expire_ticker prune_hosts node_ip node_port first_endpoint string_at port_at public_json
    node_json endpoint_json ticker_key dump parse find erase str_eq with_hosts with_ticker_num
    erase_ticker to_string ◌>>=◌ if◌run◌else◌
expired = refl

one_host : IsSorted waiting_server.host_list
unfolding with_hosts with_ticker_num
one_host = (tt, tt)

silent_found : find (codes "n") waiting_server.host_list ≡ some silent_text
unfolding with_hosts with_ticker_num find str_eq
silent_found = refl

silent_counted : CountedUnder sample (ticker_key there_ip 4000) silent_text
unfolding public_json node_json endpoint_json node_ip node_port first_endpoint string_at port_at
    find str_eq
silent_counted = record {
  item = public_json sample there_ip 4000;
  ip = there_ip;
  port = 4000;
  parsed = sample.parse-dump (public_json sample there_ip 4000);
  ip_of = refl;
  port_of = refl;
  shape = refl;
}

expire_ticker-drops_example :
    (true ≡ true)
    × (find (codes "n") pruned.host_list ≡ (
        if str_eq (ticker_key there_ip 4000) (ticker_key there_ip 4000)
        then none
        else some silent_text))
expire_ticker-drops_example =
    expire_ticker-drops sample (ticker_key there_ip 4000) (ticker_key there_ip 4000) (codes "n")
      silent_text 60 waiting_server pruned true (omega arith) one_host silent_found silent_counted
      expired
