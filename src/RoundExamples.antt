-- ===== src/RoundExamples.antt =====
-- The timer's rounds, the node table and two nodes together (server.cpp, managerhost.cpp) at concrete
-- inputs: the theorems on them.
use nat.Prelude.{
  to_string, ◌≤◌, length, none, ℕ, List, codes, str_eq, str_eq_complete, digits_value, true, false,
  [], ◌∷◌, ◌++◌, ◌+◌, ◌≡◌, ◌≢◌, refl, arith,
}
use nat.StdMap.{find, has, place, insert}
use nat.Effect.{fails, exception, done, final, ◌>>=◌, if◌run◌else◌}
use nat.Client.{Packet, send_to}
use nat.Sample.{sample}
use nat.Sample.Codec.{Value, dump, parse}
use nat.ManagerHost.{public_node_of, get_public_node}
use nat.Describe.{
  endpoint_json, node_json, public_json, string_at, port_at, first_endpoint, node_ip, node_port,
}
use nat.Server.State.{Server, send, gen_uuid, add_check, with_checks, public_node}
use nat.Server.Start.{start}
use nat.Server.Messages.{detect_msg, local_json, data_msg, filtering_check_msg, ticker_msg}
use nat.Server.Detect.{start_check, neighbour}
use nat.Server.Receive.{buffer_size, Datagram, no_error, handle_receive}
use nat.Server.Register.{detected}
use nat.Server.Learns.{learns_endpoint}
use nat.Server.Invariant.{IsOrdered, here, receives, Reach-start-IsOrdered}
use nat.Server.Timer.{timer_round}
use nat.Server.Live.{timer_live}
use nat.Server.Live.Whole.{timer_live-timer_round}
use nat.Server.Threads.{threadhandle}
use nat.Server.Readable.{IsHealthy}
use nat.Server.Detect.Handled.{IsDetect}
use nat.Server.Newcomers.{threadhandle-Reach}
use nat.Server.Fatal.{timer_round-ticker}
use nat.Server.Overflow.{timer_round-overflow}
use nat.Examples.{public_server, detect_datagram, after_detect, handled_detect, away}
use nat.HandlerExamples.{here_ip}
use nat.MessageExamples.{there_ip, known, detected_n, reply, reply-fits}

pub detected-IsOrdered : IsOrdered after_detect
detected-IsOrdered =
    Reach-start-IsOrdered sample (codes "2.2.2.2") 7000 6000 true (codes "1.1.1.1")
      (receives no_error detect_datagram tt here handled_detect)

timer_live-timer_round_example :
    timer_live sample 2000 after_detect ≡ timer_round sample 2000 after_detect
timer_live-timer_round_example = timer_live-timer_round sample 2000 after_detect detected-IsOrdered

-- One second after the last that fits an `int`.
abbrev too_late : ℕ
too_late = 2147483648

abbrev probed_late : Server Value
probed_late = final (start_check sample too_late here_ip 4000 (codes "n") public_server)

started_late :
    start_check sample too_late here_ip 4000 (codes "n") public_server ≡ done tt probed_late
unfolding start_check neighbour public_node get_public_node public_node_of node_ip node_port
    first_endpoint string_at port_at start public_json node_json endpoint_json dump parse find
    str_eq gen_uuid send send_to filtering_check_msg add_check with_checks insert place digits_value
    ◌>>=◌ if◌run◌else◌
started_late = refl

unused : has (sample.uuid (public_server.drawn + 1)) public_server.f_ck_time_map ≡ false
unfolding find start
unused = refl

timer_round-overflow_example :
    (u : Server Value) × (timer_round sample 2147483650 probed_late ≡ fails exception u)
timer_round-overflow_example =
    timer_round-overflow sample (codes "2.2.2.2") 7000 6000 true (codes "1.1.1.1") public_server
      probed_late too_late here_ip 4000 (codes "n") 2147483650 here (omega arith) (omega arith)
      unused started_late

-- The node that "known" has got a message from, and the datagram that answers it.
abbrev newcomer : Server Value
newcomer = record public_server { node_id = codes "n"; local_ip = codes "10.0.0.5" }

abbrev answer : Datagram
answer = record { now = 1001; ip = codes "1.1.1.1"; port = 6000; bytes = reply }

strange : str_eq newcomer.node_id public_server.node_id ≡ false
unfolding str_eq start
strange = refl

unlisted : has newcomer.node_id public_server.host_list ≡ false
unfolding find start str_eq
unlisted = refl

apart : str_eq answer.ip newcomer.local_ip ≡ false
unfolding str_eq
apart = refl

other_home : answer.ip ≢ newcomer.local_ip
unfolding str_eq
other_home e = ground (arith, apart, str_eq_complete answer.ip newcomer.local_ip e)

valid : sample.is_address there_ip ≡ true
unfolding str_eq
valid = refl

learns_endpoint_example :
    (pre : List Packet) × (post : List Packet) × (known.sent
      ≡ pre ++ record { ip = there_ip; port = 4000; body = answer.bytes } ∷ post)
    × ((final (handle_receive sample no_error answer newcomer)).local_ep_info
        ≡ detected sample there_ip 4000 (codes "10.0.0.5") 5000)
learns_endpoint_example =
    learns_endpoint sample 1000 there_ip 4000 (codes "10.0.0.5") 5000 public_server known newcomer
      answer (omega arith) (omega arith) valid strange unlisted detected_n refl reply-fits
      other_home

-- A ticker whose description is empty.
abbrev empty_ticker : Datagram
empty_ticker = record {
  now = 1001;
  ip = codes "9.9.9.9";
  port = 4000;
  bytes = sample.dump (ticker_msg sample (codes "b") (sample.obj []) (codes "m"));
}

empty_ticker-fits : length empty_ticker.bytes ≤ buffer_size
unfolding ticker_msg dump
empty_ticker-fits = omega arith

no_endpoint : find {V = Value} (codes "endpoint") [] ≡ none
unfolding find
no_endpoint = refl

timer_round-ticker_example :
    (t : Server Value) × (handle_receive sample no_error empty_ticker public_server ≡ done tt t)
    × (u : Server Value) × (timer_round sample 2000 t ≡ fails exception u)
timer_round-ticker_example =
    timer_round-ticker sample (codes "b") (codes "m") [] (codes "2.2.2.2") 7000 6000 true
      (codes "1.1.1.1") empty_ticker public_server 2000 here (omega arith) no_endpoint refl
      empty_ticker-fits away

-- The node that gets a detect message.
detect_datagram-fits : length detect_datagram.bytes ≤ buffer_size
unfolding detect_msg data_msg local_json dump to_string
detect_datagram-fits = omega arith

pub detect_datagram-IsDetect : IsDetect sample detect_datagram
detect_datagram-IsDetect = record {
  node = codes "n";
  ip = codes "10.0.0.5";
  port = to_string 5000;
  same = refl;
  fits = detect_datagram-fits;
  early = omega arith;
  plain = omega arith;
}

threadhandle-Reach_example :
    (t : Server Value) × (threadhandle sample (2000 ∷ 2005 ∷ []) after_detect ≡ done tt t)
    × IsHealthy sample t
threadhandle-Reach_example =
    threadhandle-Reach sample (codes "2.2.2.2") 7000 6000 true (codes "1.1.1.1") (2000 ∷ 2005 ∷ [])
      (receives no_error detect_datagram detect_datagram-IsDetect here handled_detect)
