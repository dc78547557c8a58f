-- ===== src/Server/Timer.antt =====
-- `udpServer::threadhandle` and `listMsgQueue` (server.cpp): one round of the timer thread.
use nat.Prelude.{
  ℕ, ◌+◌, ◌%◌, ◌^◌, Str, SignedInt, codes, str_eq, to_string, stoi, ltb, leb, Option, none, some,
  Bool, true, false, ◌||◌, [], ◌∷◌, if◌then◌else◌, length, get_elem?,
}
use nat.StdMap.{StdMap, find, insert, assign, erase}
use nat.External.{Env}
use nat.Effect.{M, pure, raise, gets, require, defined, modify, endless, ◌>>=◌, ◌>>◌, if◌run◌else◌}
use nat.Describe.{node_ip, node_port}
use nat.Server.State.{Server, with_hosts, with_ticker_num, erase_ticker, erase_check, send}
use nat.Server.Messages.{ticker_msg, detect_msg}
use nat.Server.Route.{update_route_info}
use nat.Server.Filtering.{mark_filtering}
use nat.Server.Ticker.{ticker_key}

-- `PACKAGENUM`.
abbrev pub package_num : ℕ
package_num = 60

abbrev pub is_filter : Str
is_filter = codes "isFilter"

-- `curTimeForCh - timePoint > 20`.
unfoldable pub is_late : ℕ → SignedInt → Bool
is_late now (false, t) = ltb (t + 20) now
is_late now (true, t) = ltb 20 (now + t)

-- The count is an `unsigned short`.
unfoldable pub bump : Str → StdMap ℕ → StdMap ℕ
bump key m = elim (find key m) [ none ↦ insert key 1 m | some n ↦ assign key ((n + 1) % 2 ^ 16) m ]

module _ {J : Type 0} (E : Env J) where
  unfoldable pub filter_host : Str → Option Str → M (Server J) (Unit {0})
  filter_host host none = pure tt
  filter_host host (some text) = mark_filtering E is_filter host text

  -- A late entry. One that is not of a filtering probe stays, and the loop comes back to it.
  unfoldable pub expire_check : Str → Str → Str → M (Server J) Bool
  expire_check id kind host =
      if str_eq kind (codes "filtering")
      run (do
        hosts ← gets (λ s. s.host_list)
        filter_host host (find host hosts)
        erase_check id
        pure true)
      else raise endless

  -- One entry of the time map; the result says whether the nodes are to be notified.
  unfoldable pub check_entry : ℕ → Str → Str → M (Server J) Bool
  check_entry now id key = do
    stamp ← defined (get_elem? (E.split key) 1)
    time ← require (stoi stamp)
    host ← defined (get_elem? (E.split key) 4)
    kind ← defined (get_elem? (E.split key) 0)
    if is_late now time run expire_check id kind host else pure false

  unfoldable pub sweep_checks : ℕ → StdMap Str → M (Server J) Bool
  sweep_checks now [] = pure false
  sweep_checks now ((id, key) ∷ entries) = do
    one ← check_entry now id key
    more ← sweep_checks now entries
    pure (one || more)

  -- Every node at the endpoint of the key leaves the list.
  unfoldable pub prune_hosts : Str → StdMap Str → M (Server J) (Unit {0})
  prune_hosts key [] = pure tt
  prune_hosts key ((k, v) ∷ hosts) = do
    item ← require (E.parse v)
    ip ← require (node_ip E item)
    port ← require (node_port E item)
    if str_eq (ticker_key ip port) key
        run modify (λ s. with_hosts (erase k s.host_list) s)
        else pure tt
    prune_hosts key hosts

  unfoldable pub expire_ticker : Str → ℕ → M (Server J) Bool
  expire_ticker key n =
      if leb package_num n
      run (do hosts ← gets (λ s. s.host_list); prune_hosts key hosts; erase_ticker key; pure true)
      else pure false

  unfoldable pub sweep_tickers : StdMap ℕ → M (Server J) Bool
  sweep_tickers [] = pure false
  sweep_tickers ((key, n) ∷ entries) = do
    one ← expire_ticker key n
    more ← sweep_tickers entries
    pure (one || more)

  -- A ticker to one node; the source's `msgID` is never set.
  unfoldable pub tick_host : Str → J → Str → J → M (Server J) (Unit {0})
  tick_host own info k item = do
    ip ← require (node_ip E item)
    port ← require (node_port E item)
    if str_eq own k run pure tt else do
      send E ip port (ticker_msg E own info [])
      modify (λ s. with_ticker_num (bump (ticker_key ip port) s.ticker_num) s)

  unfoldable pub tick_hosts : Str → J → StdMap Str → M (Server J) (Unit {0})
  tick_hosts own info [] = pure tt
  tick_hosts own info ((k, v) ∷ hosts) = do
    item ← require (E.parse v)
    tick_host own info k item
    tick_hosts own info hosts

  -- Ten rounds with at most one node known, and the node asks again where it asked at its start.
  unfoldable pub list_msg_queue : M (Server J) (Unit {0})
  list_msg_queue = do
    modify (λ s. record s {
      count = if leb (length s.host_list) 1 then (s.count + 1) % 2 ^ 32 else s.count;
    })
    n ← gets (λ s. s.count)
    if leb 10 n
        run (do
          own ← gets (λ s. s.node_id)
          ip ← gets (λ s. s.local_ip)
          port ← gets (λ s. s.local_port)
          to_ip ← gets (λ s. s.from_cli_ip)
          to_port ← gets (λ s. s.from_cli_port)
          send E to_ip to_port (detect_msg E own ip (to_string port))
          modify (λ s. record s { count = 0 }))
        else pure tt

  -- The body of the `while (true)`, after the sleep. Nothing catches an exception in this thread, so
  -- that `fails` ends the process too.
  unfoldable pub timer_round : ℕ → M (Server J) (Unit {0})
  timer_round now = do
    checks ← gets (λ s. s.f_ck_time_map)
    late ← sweep_checks now checks
    tickers ← gets (λ s. s.ticker_num)
    lost ← sweep_tickers tickers
    own ← gets (λ s. s.node_id)
    info ← gets (λ s. s.local_ep_info)
    hosts ← gets (λ s. s.host_list)
    tick_hosts own info hosts
    if late || lost run update_route_info E else pure tt
    list_msg_queue
