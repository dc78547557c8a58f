-- ===== src/NodeExamples.antt =====
-- The theorems on the node table, the local address, whole runs, and the messages of a node (server.cpp,
-- managerhost.cpp, client.cpp) at concrete inputs.
use nat.Prelude.{
  ◌≤◌, Str, codes, str_eq, str_lt, true, false, some, List, [], ◌∷◌, ◌≡◌, ◌≢◌, refl, arith, length,
  if◌then◌else◌, str_eq_complete,
}
use nat.StdMap.{find}
use nat.Effect.{final, done, fails, exception, pure, ◌>>=◌, if◌run◌else◌}
use nat.Client.Encrypt.{encrypto}
use nat.Sample.{sample}
use nat.Sample.Codec.{Value, dump, parse}
use nat.Sample.Outside.{cipher}
use nat.Describe.{string_at, public_json, node_ip, node_port, first_endpoint, port_at}
use nat.Server.Undescribed.{help_connect-undescribed}
use nat.Server.State.{send_thrice}
use nat.Server.Connect.{help_connect}
use nat.Server.Messages.{help_connect_msg}
use nat.ManagerHost.Spec.{Op, add, change, apply_all, specified_all, view, view-apply_all}
use nat.Server.State.{Server, start_receive}
use nat.Server.Start.{start}
use nat.Server.Messages.{update_msg, hosts_json, data_msg}
use nat.Server.Receive.{
  Datagram, no_error, buffer_size, recv_buffer, then_listen, dispatch, typed, parsed, body,
  handle_receive,
}
use nat.Server.Update.{update}
use nat.Server.Listening.{is_own_update}
use nat.Server.Threads.{Event, arrives, sleeps, happen_all, happen, msg_thread}
use nat.Server.Runs.{happen_all-own_update}
use nat.Server.Buffer.{handle_receive-parsed}
use nat.Server.Documented.{
  Peer, holdpunching, documented_msg, documented_data, peer_json, handle_receive-documented,
}
use nat.Server.Moved.{described}
use nat.Server.Joined.{joined, handle_receive-joined}
use nat.Server.Messages.{open_connect_msg}
use nat.Describe.{node_json, endpoint_json}
use nat.Examples.{public_server}

abbrev there_ip : Str
there_ip = codes "9.9.9.9"

there_apart : str_eq there_ip (codes "1.1.1.1") ≡ false
unfolding str_eq
there_apart = refl

there_away : there_ip ≢ public_server.local_ip
unfolding start
there_away e = ground (arith, there_apart, str_eq_complete there_ip (codes "1.1.1.1") e)

-- The node table.
abbrev calls : List Op
calls =
    add (codes "a") (codes "x") ∷ add (codes "a") (codes "y") ∷ change (codes "a") (codes "z") ∷ []

view-apply_all_example :
    view (apply_all calls public_server.man_host) (codes "a")
    ≡ specified_all calls (view public_server.man_host) (codes "a")
view-apply_all_example = view-apply_all calls public_server.man_host (codes "a")

encrypto-hello : encrypto cipher (codes "hello") ≡ codes "helloharryhannahhello"
unfolding encrypto
encrypto-hello = refl

-- A documented request to punch a hole.
abbrev peer : Peer
peer = record { ip = codes "3"; port = codes "5"; nattype = codes "1" }

abbrev punching : Value
punching = documented_msg sample holdpunching peer peer

abbrev punching_datagram : Datagram
punching_datagram = record { now = 1; ip = there_ip; port = 4000; bytes = sample.dump punching }

punching-fits : length punching_datagram.bytes ≤ buffer_size
unfolding documented_msg documented_data peer_json dump
punching-fits = omega arith

handle_receive-documented_example :
    handle_receive sample no_error punching_datagram public_server
    ≡ fails exception (record public_server { receiving = false })
handle_receive-documented_example =
    handle_receive-documented sample holdpunching peer peer punching_datagram public_server refl
      punching-fits there_away

handle_receive-parsed_example :
    handle_receive sample no_error punching_datagram public_server
    ≡ (parsed sample punching_datagram (some punching) >>= λ again.
          if again run start_receive else pure tt)
        (record public_server { receiving = false })
handle_receive-parsed_example =
    handle_receive-parsed sample punching_datagram punching public_server refl punching-fits
      there_away

-- An update with the node's own ID.
abbrev own_update : Datagram
own_update = record {
  now = 1;
  ip = there_ip;
  port = 4000;
  bytes = sample.dump (update_msg sample public_server.node_id []);
}

abbrev deaf : Server Value
deaf = final (handle_receive sample no_error own_update public_server)

updated : handle_receive sample no_error own_update public_server ≡ done tt deaf
unfolding handle_receive body recv_buffer parsed typed dispatch then_listen update update_msg
    hosts_json data_msg string_at str_eq str_lt dump parse find start start_receive ◌>>=◌
    if◌run◌else◌
updated = refl

own : is_own_update sample own_update public_server ≡ true
unfolding is_own_update recv_buffer update_msg hosts_json data_msg string_at str_eq str_lt dump
    parse find start
own = refl

abbrev events : List Event
events = arrives no_error punching_datagram ∷ sleeps ∷ []

ignored : happen_all sample events deaf ≡ done tt deaf
unfolding handle_receive body recv_buffer parsed typed dispatch then_listen update update_msg
    hosts_json data_msg string_at str_eq str_lt dump parse find start start_receive happen_all
    happen msg_thread ◌>>=◌ if◌run◌else◌
ignored = refl

happen_all-own_update_example : deaf.receiving ≡ false
happen_all-own_update_example =
    happen_all-own_update sample own_update events public_server deaf deaf own updated ignored

-- A node introduces itself from where it says that it is.
abbrev joining : Datagram
joining = record {
  now = 1;
  ip = there_ip;
  port = 4000;
  bytes = sample.dump (
      open_connect_msg sample (codes "n")
        (described sample (codes "m") (codes "f") [] there_ip 4000));
}

joining-fits : length joining.bytes ≤ buffer_size
unfolding open_connect_msg data_msg node_json endpoint_json dump
joining-fits = omega arith

handle_receive-joined_example :
    (t : Server Value) × (handle_receive sample no_error joining public_server ≡ done tt t)
    × (t.receiving ≡ true)
    × (find (codes "n") t.host_list
        ≡ joined sample
            (codes "m")
            (codes "f")
            there_ip
            4000
            []
            there_ip
            4000
            (codes "n")
            public_server.host_list)
handle_receive-joined_example =
    handle_receive-joined sample (codes "m") (codes "f") there_ip 4000 [] (codes "n") joining
      public_server (omega arith) refl joining-fits there_away

-- A node that is not public, and what it is told of the node that it is to open a way to.
abbrev private_server : Server Value
private_server = start sample (codes "2.2.2.2") 7000 6000 false (codes "10.0.0.5")

abbrev wanted : Value
wanted = public_json sample (codes "3.3.3.3") 5000

private-null : private_server.local_ep_info ≡ sample.null
unfolding start
private-null = refl

wanted-ip : node_ip sample wanted ≡ some (codes "3.3.3.3")
unfolding node_ip first_endpoint string_at public_json node_json endpoint_json find str_eq
wanted-ip = refl

wanted-port : node_port sample wanted ≡ some 5000
unfolding node_port first_endpoint port_at public_json node_json endpoint_json find str_eq
wanted-port = refl

abbrev opening : Datagram
opening = record {
  now = 1;
  ip = there_ip;
  port = 4000;
  bytes = sample.dump (open_connect_msg sample private_server.node_id private_server.local_ep_info);
}

opening-fits : length opening.bytes ≤ buffer_size
unfolding open_connect_msg data_msg start dump
opening-fits = omega arith

help_connect-undescribed_example :
    (help_connect sample (help_connect_msg sample (codes "p") wanted) private_server
      ≡ send_thrice sample
          (codes "3.3.3.3")
          5000
          (open_connect_msg sample private_server.node_id private_server.local_ep_info)
          private_server)
    × (handle_receive sample no_error opening public_server
        ≡ fails exception (record public_server { receiving = false }))
help_connect-undescribed_example =
    help_connect-undescribed sample (codes "p") wanted (codes "3.3.3.3") 5000 private_server opening
      public_server private-null wanted-ip wanted-port refl opening-fits there_away
