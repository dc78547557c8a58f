-- ===== src/Server/Receive.antt =====
-- `udpServer::handleReceive` (server.cpp): the completion of one asynchronous receive.
use nat.Prelude.{
  ℕ, ◌-◌, Str, codes, str_eq, Option, none, some, Bool, true, false, ◌++◌, length, take, replicate,
}
use nat.External.{Env}
use nat.Effect.{M, pure, gets, require, modify, ◌>>=◌, ◌>>◌, if◌run◌else◌}
use nat.Describe.{string_at}
use nat.Server.State.{Server, start_receive}
use nat.Server.Detect.{detect}
use nat.Server.Update.{update}
use nat.Server.Connect.{proxy_connect, help_connect, open_connect}
use nat.Server.Filtering.{filtering_check, call_client, call_client_res}
use nat.Server.Ticker.{ticker, ticker_res}

-- The error code of the receive: none, `message_size` or another.
pub data RecvError : Type 0 where
  no_error message_size other_error : RecvError

-- One received datagram. The address is the text that `to_string` gives, and `now` is what
-- `std::time` returns in the handler.
pub record Datagram : Type 0 where
  pub now : ℕ
  pub ip : Str
  pub port : ℕ
  pub bytes : Str

abbrev pub buffer_size : ℕ
buffer_size = 10000

-- `_recvBuffer`: zeros, and the datagram as far as it fits.
unfoldable pub recv_buffer : Str → Str
recv_buffer bytes = take buffer_size bytes ++ replicate (buffer_size - length bytes) 0

module _ {J : Type 0} (E : Env J) where
  unfoldable pub then_listen : M (Server J) (Unit {0}) → M (Server J) Bool
  then_listen m = do m; pure true

  -- The chain of tests on `msgtype`. The result says whether the handler reaches `startReceive`.
  unfoldable pub dispatch : Datagram → Str → Str → J → M (Server J) Bool
  dispatch d msgtype node msg =
      if str_eq msgtype (codes "detect")
      run then_listen (detect E d.now d.ip d.port node msg)
      else if str_eq msgtype (codes "update")
      run update E d.ip d.port node msg
      else if str_eq msgtype (codes "proxyconnect")
      run then_listen (proxy_connect E d.ip d.port msg)
      else if str_eq msgtype (codes "helpconnect")
      run then_listen (help_connect E msg)
      else if str_eq msgtype (codes "openconnect")
      run then_listen (open_connect E d.ip d.port node msg)
      else if str_eq msgtype (codes "filteringcheck")
      run then_listen (filtering_check E d.ip d.port msg)
      else if str_eq msgtype (codes "callclient")
      run then_listen (call_client E d.ip d.port msg)
      else if str_eq msgtype (codes "callclientRes")
      run then_listen (call_client_res E msg)
      else if str_eq msgtype (codes "ticker")
      run then_listen (ticker E d.ip d.port msg)
      else if str_eq msgtype (codes "tickerRes")
      run then_listen (ticker_res E d.ip d.port msg)
      else pure true

  unfoldable pub typed : Datagram → J → Option J → M (Server J) Bool
  typed d msg none = pure true
  typed d msg (some t) = do
    msgtype ← require (E.get_string t)
    node ← require (string_at E (codes "nodeID") msg)
    dispatch d msgtype node msg

  -- What is no JSON, or has no `msgtype`, is passed over.
  unfoldable pub parsed : Datagram → Option J → M (Server J) Bool
  parsed d none = pure true
  parsed d (some msg) = typed d msg (E.find_field (codes "msgtype") msg)

  unfoldable pub body : Datagram → M (Server J) Bool
  body d = do
    own_ip ← gets (λ s. s.local_ip)
    if str_eq d.ip own_ip run pure true else parsed d (E.parse (recv_buffer d.bytes))

  -- The receive that was pending is over. An exception ends the process (`abort` in the `catch`),
  -- and so the outcome `fails` is final.
  unfoldable pub handle_receive : RecvError → Datagram → M (Server J) (Unit {0})
  handle_receive other_error d = modify λ s. record s { receiving = false }
  handle_receive _ d = do
    modify (λ s. record s { receiving = false })
    again ← body d
    if again run start_receive else pure tt
