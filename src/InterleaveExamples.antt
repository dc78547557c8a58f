-- ===== src/InterleaveExamples.antt =====
-- The timer's turns among calls of the handler (server.cpp) at concrete inputs: the theorems on them.
use nat.Prelude.{
  codes, str_eq, str_lt, digits_value, to_string, stoi, some, none, true, false, ◌≡◌, refl,
}
use nat.StdMap.{find, place, insert, assign, erase}
use nat.StdMap.Iterator.{first_key}
use nat.Effect.{done, fails, undefined, final, ◌>>=◌, if◌run◌else◌}
use nat.Client.{send_to}
use nat.Sample.{sample}
use nat.Sample.Codec.{Value, dump, parse}
use nat.Sample.Boosted.{split, lexical_cast}
use nat.Describe.{
  endpoint_json, node_json, public_json, string_at, port_at, first_endpoint, node_ip, node_port,
  is_public,
}
use nat.ManagerHost.{add_new_node, public_node_of, get_public_node}
use nat.Server.State.{
  Server, with_hosts, add_node, assign_node, with_checks, with_ticker_num, erase_ticker,
  erase_check, add_check, start_receive, send, gen_uuid, public_node,
}
use nat.Server.Start.{start}
use nat.Server.Messages.{
  hosts_json, data_msg, update_msg, filtering_check_msg, local_json, detect_msg, ticker_msg,
  ticker_res_msg,
}
use nat.Server.Route.{notify, update_route_info}
use nat.Server.Detect.{
  check_key, mapped_json, add_self, neighbour, start_check, detect_mapped, detect_public, detect,
}
use nat.Server.Receive.{
  no_error, recv_buffer, then_listen, dispatch, typed, parsed, body, handle_receive,
}
use nat.Server.Connect.{store_node}
use nat.Server.Filtering.{mark_filtering}
use nat.Server.Ticker.{ticker, ticker_key}
use nat.Server.Timer.{
  is_late, filter_host, expire_check, check_entry, bump, list_msg_queue, timer_round, sweep_checks,
  sweep_tickers, tick_hosts, tick_host,
}
use nat.Server.Detect.Handled.{IsDetect}
use nat.Server.Interleave.{
  checking, counting, pruning, Timer, turn, count_turn, new_timer, Mixed, begins, handles, turns,
}
use nat.Server.Interleave.Detects.{turn-Mixed}
use nat.Server.Interleave.Turns.{Turns}
use nat.Server.Interleave.Whole.{resting, timer_round-Turns}
use nat.Server.Interleave.Undefined.{IsLost, turn-IsLost}
use nat.Server.Interleave.Races.{turn-ticker}
use nat.Examples.{public_server, detect_datagram, after_detect, handled_detect, ticker_datagram}
use nat.HandlerExamples.{counted-IsSorted, here_ip, heartbeat, counted, forgot, ticked}
use nat.RoundExamples.{detected-IsOrdered, detect_datagram-IsDetect}

-- The timer wakes after a "detect", and stands at the first of the probes.
abbrev woken : Timer Value
woken = record {
  now = 2000;
  need_notify = false;
  place = checking (first_key after_detect.f_ck_time_map);
}

woken-Mixed : Mixed sample (IsDetect sample) public_server woken after_detect
unfolding turn ◌>>=◌
woken-Mixed =
    turns 2000 (handles no_error detect_datagram detect_datagram-IsDetect begins handled_detect)
      refl

turn-Mixed_example :
    (t : Timer Value) × (u : Server Value) × (turn sample 2000 woken woken.place after_detect
      ≡ done t u)
turn-Mixed_example =
    turn-Mixed sample (codes "2.2.2.2") 7000 6000 true (codes "1.1.1.1") 2000 woken-Mixed

-- The round in which the probe that the "detect" has started is given up.
abbrev rounded : Server Value
rounded = final (timer_round sample 2000 after_detect)

round_returned : timer_round sample 2000 after_detect ≡ done tt rounded
unfolding send_to endpoint_json node_json public_json string_at port_at first_endpoint node_ip
    node_port is_public add_new_node public_node_of get_public_node digits_value to_string stoi
    str_eq str_lt split lexical_cast dump parse check_key mapped_json add_self neighbour start_check
    detect_mapped detect_public detect hosts_json data_msg update_msg filtering_check_msg local_json
    detect_msg recv_buffer then_listen dispatch typed parsed body handle_receive notify
    update_route_info start with_hosts add_node assign_node with_checks add_check start_receive send
    gen_uuid public_node ticker_msg ticker_key with_ticker_num erase erase_check mark_filtering
    is_late filter_host expire_check check_entry bump list_msg_queue timer_round sweep_checks
    sweep_tickers tick_hosts tick_host find place insert assign ◌>>=◌ if◌run◌else◌
round_returned = refl

timer_round-Turns_example :
    Turns sample 2000 (resting sample 0) after_detect (resting sample 2000) rounded
timer_round-Turns_example =
    timer_round-Turns sample 0 2000 after_detect rounded detected-IsOrdered round_returned

turn-ticker_example :
    (turn sample 2000 (new_timer sample) (counting (some (ticker_key here_ip 4000))) forgot
      ≡ fails undefined forgot)
    × (turn sample 2000 (new_timer sample) (pruning (ticker_key here_ip 4000) none) forgot
        ≡ fails undefined forgot)
turn-ticker_example =
    turn-ticker sample here_ip 4000 heartbeat 2000 (new_timer sample) counted forgot
      counted-IsSorted ticked

-- A node whose heartbeats to an endpoint have had no answer: the timer stands at the count of them when a
-- "ticker" from there is handled.
abbrev at_count : Timer Value
at_count = record {
  now = 2000;
  need_notify = false;
  place = counting (some (ticker_key here_ip 4000));
}

abbrev answered : Server Value
answered = final (handle_receive sample no_error ticker_datagram counted)

handled : handle_receive sample no_error ticker_datagram counted ≡ done tt answered
unfolding send_to endpoint_json node_json public_json string_at port_at first_endpoint node_ip
    node_port is_public add_new_node public_node_of get_public_node digits_value to_string stoi
    str_eq str_lt split lexical_cast dump parse data_msg local_json recv_buffer then_listen dispatch
    typed parsed body handle_receive start with_hosts add_node assign_node start_receive send
    gen_uuid public_node ticker_msg ticker_res_msg ticker ticker_key store_node erase_ticker
    with_ticker_num erase find place insert assign ◌>>=◌ if◌run◌else◌
handled = refl

answered-Mixed : Mixed sample (λ d. Unit) counted at_count answered
unfolding turn first_key start with_ticker_num ◌>>=◌
answered-Mixed =
    handles no_error ticker_datagram tt
      (turns 2000
        (turns {t' = record { now = 2000; need_notify = false; place = checking none }} 2000 begins
          refl)
        refl)
      handled

gone : turn sample 2000 at_count at_count.place answered ≡ fails undefined answered
unfolding turn count_turn send_to endpoint_json node_json public_json string_at port_at
    first_endpoint node_ip node_port is_public add_new_node public_node_of get_public_node
    digits_value to_string stoi str_eq str_lt split lexical_cast dump parse data_msg local_json
    recv_buffer then_listen dispatch typed parsed body handle_receive start with_hosts add_node
    assign_node start_receive send gen_uuid public_node ticker_msg ticker_res_msg ticker ticker_key
    store_node erase_ticker with_ticker_num erase find place insert assign ◌>>=◌ if◌run◌else◌
gone = refl

turn-IsLost_example : IsLost sample at_count.place answered
turn-IsLost_example = turn-IsLost sample 2000 answered answered-Mixed gone
