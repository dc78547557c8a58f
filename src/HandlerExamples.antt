-- ===== src/HandlerExamples.antt =====
-- Concrete runs of single handlers and of parts of the timer: the theorems on them at these inputs.
use nat.Prelude.{
  ℕ, List, some, ltb, if◌then◌else◌, ◌+◌, ◌≤◌, Str, codes, str_eq, true, false, [], ◌∷◌, ◌++◌, ◌≡◌,
  ◌≢◌, refl, arith, length, str_eq_complete,
}
use nat.StdMap.{find, assign, erase, IsSorted}
use nat.Effect.{exception, fails, undefined, final, done, ◌>>=◌, if◌run◌else◌}
use nat.Client.{Packet, send_to}
use nat.Sample.{sample}
use nat.Sample.Codec.{Value, dump}
use nat.Describe.{
  endpoint_json, node_json, public_json, string_at, port_at, first_endpoint, node_ip, node_port,
}
use nat.ManagerHost.{public_node_of, get_public_node}
use nat.Server.State.{
  Server, with_hosts, with_checks, with_ticker_num, erase_ticker, send, send_thrice,
}
use nat.Server.Start.{start}
use nat.Server.Messages.{
  update_msg, hosts_json, data_msg, proxy_connect_msg, help_connect_msg, open_connect_msg,
  ticker_msg, ticker_res_msg,
}
use nat.Server.Detect.{check_key, start_check}
use nat.Server.Connect.{help_body, proxy_connect}
use nat.Server.Ticker.{ticker_key, ticker}
use nat.Server.Receive.{Datagram, no_error, buffer_size, handle_receive}
use nat.Server.Idle.{IsIdle, itself, asked, threadhandle-asks}
use nat.Server.Threads.{threadhandle}
use nat.Server.Timer.{is_filter, check_entry}
use nat.Server.Timeouts.{check_entry-timeout}
use nat.External.{with_field}
use nat.Server.Strangers.{handle_receive-stranger}
use nat.Server.Alone.{start_check-alone}
use nat.Server.Punch.{proxy_connect-handle_receive}
use nat.Examples.{public_server}

abbrev pub here_ip : Str
here_ip = codes "9.9.9.9"

-- A description with nothing in it.
abbrev bare : Str
bare = sample.dump (sample.obj [])

-- A node that has sent three heartbeats to an endpoint, and gets one from there.
abbrev pub heartbeat : Value
heartbeat = ticker_msg sample (codes "n") sample.null (codes "m")

abbrev pub counted : Server Value
counted = with_ticker_num ((ticker_key here_ip 4000, 3) ∷ []) public_server

abbrev pub forgot : Server Value
forgot = final (ticker sample here_ip 4000 heartbeat counted)

pub ticked : ticker sample here_ip 4000 heartbeat counted ≡ done tt forgot
unfolding ticker ticker_msg ticker_res_msg string_at find str_eq send send_to erase_ticker
    with_ticker_num ◌>>=◌ if◌run◌else◌
ticked = refl

pub counted-IsSorted : IsSorted counted.ticker_num
unfolding with_ticker_num
counted-IsSorted = (tt, tt)

-- A node that has itself alone in its list, and nine times at which its timer wakes.
abbrev self_text : Value
self_text = public_json sample (codes "1.1.1.1") 6000

abbrev lonely : Server Value
lonely = with_hosts ((public_server.node_id, sample.dump self_text) ∷ []) public_server

lonely-IsIdle : IsIdle sample lonely
unfolding with_hosts start public_json node_json endpoint_json node_ip node_port first_endpoint
    string_at port_at find str_eq
lonely-IsIdle = record {
  alone =
      itself (sample.dump self_text) self_text (codes "1.1.1.1") 6000 refl
        (sample.parse-dump self_text) refl refl;
  checks = refl;
  tickers = refl;
}

abbrev nine_times : List ℕ
nine_times = 5 ∷ 10 ∷ 15 ∷ 20 ∷ 25 ∷ 30 ∷ 35 ∷ 40 ∷ 45 ∷ []

uncounted : lonely.count + length nine_times ≡ 9
unfolding with_hosts start
uncounted = refl

threadhandle-asks_example :
    (threadhandle sample nine_times lonely
      ≡ done tt (record lonely { count = lonely.count + length nine_times }))
    × (threadhandle sample (nine_times ++ 50 ∷ []) lonely ≡ done tt (asked sample lonely))
threadhandle-asks_example = threadhandle-asks sample nine_times 50 lonely lonely-IsIdle uncounted

-- A probe of the node "n" that has no answer.
abbrev with_n : Server Value
with_n = with_hosts ((codes "n", bare) ∷ []) public_server

found_n : find (codes "n") with_n.host_list ≡ some bare
unfolding find str_eq with_hosts
found_n = refl

check_entry-timeout_example :
    check_entry sample 2000 (codes "u") (check_key 1000 here_ip 4000 (codes "n")) with_n ≡ (
      if ltb (1000 + 20) 2000
      then done true (
          with_checks (erase (codes "u") with_n.f_ck_time_map) (
            with_hosts
              (assign
                (codes "n")
                (sample.dump
                  (sample.obj (with_field (codes "natfiltering") (sample.str is_filter) [])))
                with_n.host_list)
              with_n))
      else done false with_n)
check_entry-timeout_example =
    check_entry-timeout sample 2000 (codes "u") 1000 here_ip 4000 (codes "n") bare [] with_n
      (omega arith) (omega arith) (omega arith) found_n (sample.parse-dump (sample.obj []))

-- "n" asks the public node for help with the node at 3.3.3.3, and that node hears of it.
abbrev plea : Value
plea = proxy_connect_msg sample (codes "n") (public_json sample (codes "3.3.3.3") 5000)

abbrev helping : Server Value
helping = final (proxy_connect sample here_ip 4000 plea public_server)

abbrev help_packet : Packet
help_packet = record {
  ip = codes "3.3.3.3";
  port = 5000;
  body = sample.dump (
      help_connect_msg sample public_server.node_id (
        help_body sample (sample.str (codes "Nonmap")) (sample.str (codes "Nonfilter")) here_ip
          4000));
}

helped : proxy_connect sample here_ip 4000 plea public_server ≡ done tt helping
unfolding proxy_connect proxy_connect_msg data_msg public_json node_json endpoint_json node_ip
    node_port first_endpoint string_at port_at find str_eq send ◌>>=◌ if◌run◌else◌
helped = refl

sent_help : helping.sent ≡ public_server.sent ++ help_packet ∷ []
unfolding proxy_connect proxy_connect_msg data_msg public_json node_json endpoint_json node_ip
    node_port first_endpoint string_at port_at find str_eq send send_to start ◌>>=◌ if◌run◌else◌
sent_help = refl

help_packet-fits : length help_packet.body ≤ buffer_size
unfolding help_connect_msg help_body data_msg endpoint_json start dump
help_packet-fits = omega arith

abbrev help_datagram : Datagram
help_datagram = record { now = 1000; ip = codes "2.2.2.2"; port = 7000; bytes = help_packet.body }

helper_apart : str_eq (codes "2.2.2.2") (codes "1.1.1.1") ≡ false
unfolding str_eq
helper_apart = refl

helper_away : codes "2.2.2.2" ≢ public_server.local_ip
unfolding start
helper_away e = ground (arith, helper_apart, str_eq_complete (codes "2.2.2.2") (codes "1.1.1.1") e)

proxy_connect-handle_receive_example :
    handle_receive sample no_error help_datagram public_server
    ≡ done tt (
        final (
          send_thrice sample here_ip 4000
            (open_connect_msg sample public_server.node_id public_server.local_ep_info)
            (record public_server { receiving = true })))
proxy_connect-handle_receive_example =
    proxy_connect-handle_receive sample here_ip 4000 plea public_server helping help_packet
      help_datagram public_server helped sent_help (omega arith) help_packet-fits refl helper_away

-- An update that knows "n" alone.
abbrev stranger : Datagram
stranger = record {
  now = 1000;
  ip = codes "2.2.2.2";
  port = 7000;
  bytes = sample.dump (update_msg sample (codes "n") ((codes "n", bare) ∷ []));
}

stranger-fits : length stranger.bytes ≤ buffer_size
unfolding update_msg hosts_json data_msg dump
stranger-fits = omega arith

stranger-apart : str_eq (codes "n") public_server.node_id ≡ false
unfolding str_eq start
stranger-apart = refl

handle_receive-stranger_example :
    handle_receive sample no_error stranger public_server
    ≡ fails undefined (record public_server { receiving = false })
unfolding find str_eq start
handle_receive-stranger_example =
    handle_receive-stranger sample (codes "n") ((codes "n", bare) ∷ []) stranger public_server refl
      stranger-fits helper_away stranger-apart refl

-- A node that was not started as public.
abbrev private_server : Server Value
private_server = start sample (codes "2.2.2.2") 7000 6000 false (codes "1.1.1.1")

start_check-alone_example :
    start_check sample 1000 here_ip 4000 (codes "n") private_server ≡ fails exception private_server
unfolding start get_public_node public_node_of ◌>>=◌
start_check-alone_example =
    start_check-alone sample 1000 here_ip 4000 (codes "n") private_server refl refl
