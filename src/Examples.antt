-- ===== src/Examples.antt =====
-- Concrete nodes and datagrams: tests of the definitions, and the theorems at these inputs.
use nat.Prelude.{
  ℕ, Str, codes, str_eq, str_lt, true, false, digits_value, to_string, List, not, ◌≤◌, length,
  str_eq_complete, stoi, [], ◌∷◌, ◌≡◌, ◌≢◌, refl, arith,
}
use nat.StdMap.{find, place, insert, assign, erase}
use nat.Effect.{final, done, fails, exception, ◌>>=◌, if◌run◌else◌}
use nat.Client.{Packet, send_to}
use nat.Sample.{sample}
use nat.Sample.Codec.{Value, str, dump, parse}
use nat.Sample.Boosted.{split, lexical_cast}
use nat.Describe.{
  endpoint_json, node_json, public_json, string_at, port_at, first_endpoint, node_ip, node_port,
  is_public,
}
use nat.ManagerHost.{add_new_node, public_node_of, get_public_node}
use nat.Server.State.{
  Server, with_hosts, add_node, assign_node, with_checks, with_ticker_num, erase_ticker, add_check,
  start_receive, send, gen_uuid, public_node,
}
use nat.Server.Start.{start}
use nat.Server.Messages.{
  hosts_json, data_msg, update_msg, filtering_check_msg, local_json, detect_msg, bind_msg,
  ticker_msg, ticker_res_msg,
}
use nat.Server.Route.{notify, update_route_info}
use nat.Server.Detect.{
  check_key, mapped_json, add_self, neighbour, start_check, detect_mapped, detect_public, detect,
}
use nat.Server.Receive.{
  Datagram, no_error, other_error, buffer_size, recv_buffer, then_listen, dispatch, typed, parsed,
  body, handle_receive,
}
use nat.Server.Connect.{store_node}
use nat.Server.Ticker.{ticker, ticker_key}
use nat.Server.Timer.{timer_round, sweep_checks, sweep_tickers, tick_hosts, tick_host}
use nat.Main.{bind}
use nat.Server.Route.Recipients.{Addressed, mailed, update_route_info-Addressed}
use nat.Server.BindAborts.{handle_receive-bind}
use nat.Server.Listening.{is_own_update, receiving-handle_receive}
use nat.Server.Invariant.{IsOrdered, receives, here, Reach-start-IsOrdered}
use nat.Server.Probes.{IsFromPlain, timer_round-throws}

-- A public node.
abbrev pub public_server : Server Value
public_server = start sample (codes "2.2.2.2") 7000 6000 true (codes "1.1.1.1")

abbrev pub detect_datagram : Datagram
detect_datagram = record {
  now = 1000;
  ip = codes "9.9.9.9";
  port = 4000;
  bytes = sample.dump (detect_msg sample (codes "n") (codes "10.0.0.5") (to_string 5000));
}

abbrev pub after_detect : Server Value
after_detect = final (handle_receive sample no_error detect_datagram public_server)

pub handled_detect :
    handle_receive sample no_error detect_datagram public_server ≡ done tt after_detect
unfolding send_to endpoint_json node_json public_json string_at port_at first_endpoint node_ip
    node_port is_public add_new_node public_node_of get_public_node digits_value to_string stoi
    str_eq str_lt split lexical_cast dump parse check_key mapped_json add_self neighbour start_check
    detect_mapped detect_public detect hosts_json data_msg update_msg filtering_check_msg local_json
    detect_msg recv_buffer then_listen dispatch typed parsed body handle_receive notify
    update_route_info start with_hosts add_node assign_node with_checks add_check start_receive send
    gen_uuid public_node find place insert assign ◌>>=◌ if◌run◌else◌
handled_detect = refl

-- A node says of itself what is no description: its text cannot be read back.
abbrev pub ticker_datagram : Datagram
ticker_datagram = record {
  now = 1001;
  ip = codes "9.9.9.9";
  port = 4000;
  bytes = sample.dump (ticker_msg sample (codes "b") (str (codes "x")) (codes "m"));
}

abbrev after_ticker : Server Value
after_ticker = final (handle_receive sample no_error ticker_datagram public_server)

handled_ticker : handle_receive sample no_error ticker_datagram public_server ≡ done tt after_ticker
unfolding send_to endpoint_json node_json public_json string_at port_at first_endpoint node_ip
    node_port is_public add_new_node public_node_of get_public_node digits_value to_string stoi
    str_eq str_lt split lexical_cast dump parse check_key mapped_json add_self neighbour start_check
    detect_mapped detect_public detect hosts_json data_msg update_msg filtering_check_msg local_json
    detect_msg recv_buffer then_listen dispatch typed parsed body handle_receive notify
    update_route_info start with_hosts add_node assign_node with_checks add_check start_receive send
    gen_uuid public_node ticker_msg ticker_res_msg ticker ticker_key store_node erase_ticker
    with_ticker_num erase find place insert assign ◌>>=◌ if◌run◌else◌
handled_ticker = refl

abbrev stopped : Server Value
stopped = final (timer_round sample 2000 after_ticker)

failed_round : timer_round sample 2000 after_ticker ≡ fails exception stopped
unfolding send_to endpoint_json node_json public_json string_at port_at first_endpoint node_ip
    node_port is_public add_new_node public_node_of get_public_node digits_value to_string stoi
    str_eq str_lt split lexical_cast dump parse check_key mapped_json add_self neighbour start_check
    detect_mapped detect_public detect hosts_json data_msg update_msg filtering_check_msg local_json
    detect_msg recv_buffer then_listen dispatch typed parsed body handle_receive notify
    update_route_info start with_hosts add_node assign_node with_checks add_check start_receive send
    gen_uuid public_node ticker_msg ticker_res_msg ticker ticker_key store_node erase_ticker
    with_ticker_num erase timer_round sweep_checks sweep_tickers tick_hosts tick_host find place
    insert assign ◌>>=◌ if◌run◌else◌
failed_round = refl

abbrev routed : Server Value
routed = final (update_route_info sample after_detect)

sent_routes : update_route_info sample after_detect ≡ done tt routed
unfolding send_to endpoint_json node_json public_json string_at port_at first_endpoint node_ip
    node_port is_public add_new_node public_node_of get_public_node digits_value to_string stoi
    str_eq str_lt split lexical_cast dump parse check_key mapped_json add_self neighbour start_check
    detect_mapped detect_public detect hosts_json data_msg update_msg filtering_check_msg local_json
    detect_msg recv_buffer then_listen dispatch typed parsed body handle_receive notify
    update_route_info start with_hosts add_node assign_node with_checks add_check start_receive send
    gen_uuid public_node find place insert assign ◌>>=◌ if◌run◌else◌
sent_routes = refl

abbrev bind_packet : Packet
bind_packet = record {
  ip = codes "1.1.1.1";
  port = 6000;
  body = sample.dump (bind_msg sample (codes "5000"));
}

sent_bind :
    bind sample (codes "1.1.1.1") (codes "6000") (codes "5000") [] ≡ done tt (bind_packet ∷ [])
unfolding bind bind_msg local_json send_to lexical_cast stoi digits_value str_eq ◌>>=◌
sent_bind = refl

bind_packet-fits : length bind_packet.body ≤ buffer_size
unfolding bind_msg local_json dump
bind_packet-fits = omega arith

abbrev bind_datagram : Datagram
bind_datagram = record { now = 1000; ip = codes "9.9.9.9"; port = 4000; bytes = bind_packet.body }

apart : str_eq (codes "9.9.9.9") (codes "1.1.1.1") ≡ false
unfolding str_eq
apart = refl

pub away : codes "9.9.9.9" ≢ public_server.local_ip
unfolding start
away e = ground (arith, apart, str_eq_complete (codes "9.9.9.9") (codes "1.1.1.1") e)

no_error-other : no_error ≢ other_error
no_error-other e = cc

found_public :
    get_public_node {S = ℕ} sample (codes "z") after_detect.man_host 0
    ≡ done (sample.dump (public_json sample (codes "1.1.1.1") 6000)) 0
unfolding send_to endpoint_json node_json public_json string_at port_at first_endpoint node_ip
    node_port is_public add_new_node public_node_of get_public_node digits_value to_string stoi
    str_eq str_lt split lexical_cast dump parse check_key mapped_json add_self neighbour start_check
    detect_mapped detect_public detect hosts_json data_msg update_msg filtering_check_msg local_json
    detect_msg recv_buffer then_listen dispatch typed parsed body handle_receive notify
    update_route_info start with_hosts add_node assign_node with_checks add_check start_receive send
    gen_uuid public_node find place insert assign ◌>>=◌ if◌run◌else◌
found_public = refl

Reach-start-IsOrdered_example : IsOrdered after_detect
Reach-start-IsOrdered_example =
    Reach-start-IsOrdered sample (codes "2.2.2.2") 7000 6000 true (codes "1.1.1.1")
      (receives no_error detect_datagram tt here handled_detect)

receiving-handle_receive_example :
    after_detect.receiving ≡ not (is_own_update sample detect_datagram public_server)
receiving-handle_receive_example =
    receiving-handle_receive sample no_error detect_datagram public_server after_detect
      no_error-other handled_detect

ticker_datagram-IsFromPlain : IsFromPlain ticker_datagram
ticker_datagram-IsFromPlain = omega arith

timer_round-throws_example : exception ≡ exception
timer_round-throws_example =
    timer_round-throws sample (codes "2.2.2.2") 7000 6000 true (codes "1.1.1.1") 2000 exception
      (receives no_error ticker_datagram ticker_datagram-IsFromPlain here handled_ticker)
      failed_round

update_route_info-Addressed_example :
    (to : List (Str × ℕ)) × Addressed sample after_detect.node_id after_detect.host_list to
    × (routed ≡ record after_detect {
      sent =
          mailed sample
            (sample.dump (update_msg sample after_detect.node_id after_detect.host_list))
            to
            after_detect.sent;
    })
update_route_info-Addressed_example =
    update_route_info-Addressed sample after_detect routed sent_routes

handle_receive-bind_example :
    handle_receive sample no_error bind_datagram public_server
    ≡ fails exception (record public_server { receiving = false })
handle_receive-bind_example =
    handle_receive-bind sample (codes "1.1.1.1") (codes "6000") (codes "5000") bind_packet
      bind_datagram public_server sent_bind bind_packet-fits refl away
