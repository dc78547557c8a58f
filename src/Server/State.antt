-- ===== src/Server/State.antt =====
-- server.hpp: the members of `udpServer` that its code reads or writes; its methods are in the other
-- modules. In place of the socket, the buffer and the handles of the threads stand `sent`, what went
-- to the socket so far, and `receiving`, whether a receive is pending; `drawn` counts the UUIDs. No
-- code that runs uses `tickerNodes`, `tickerNodeRes`, `_localMappingIp` and `_localMappingPort`.
use nat.Prelude.{ℕ, Str, Bool, true, List, ◌+◌}
use nat.StdMap.{StdMap, insert, assign, erase}
use nat.External.{Env}
use nat.Effect.{M, pure, gets, modify, ◌>>=◌, ◌>>◌}
use nat.ManagerHost.{ManagerHost, add_new_node, get_public_node}
use nat.Client.{Packet, send_to}

pub record Server (J : Type 0) : Type 0 where
  pub man_host : ManagerHost
  pub open man_host use *
  pub public_nodes : List Str
  pub f_ck_time_map : StdMap Str
  pub ticker_num : StdMap ℕ
  pub local_ep_info : J
  pub public_flag : Bool
  pub node_id : Str
  pub local_ip : Str
  pub local_port : ℕ
  pub from_cli_ip : Str
  pub from_cli_port : ℕ
  pub count : ℕ
  pub receiving : Bool
  pub drawn : ℕ
  pub sent : List Packet

module _ {J : Type 0} where
  unfoldable pub with_hosts : StdMap Str → Server J → Server J
  with_hosts m s = record s { man_host = record { host_list = m } }

  -- `manHost->addNewNode`, whose status is ignored.
  unfoldable pub add_node : Str → Str → M (Server J) (Unit {0})
  unfolding add_new_node
  add_node id info = modify λ s. record s { man_host = (add_new_node id info s.man_host).1 }

  -- `it->second = info` at an entry of `manHost->_HostList`.
  unfoldable pub assign_node : Str → Str → M (Server J) (Unit {0})
  unfolding with_hosts
  assign_node id info = modify λ s. with_hosts (assign id info s.host_list) s

  unfoldable pub with_ticker_num : StdMap ℕ → Server J → Server J
  with_ticker_num m s = record s { ticker_num = m }

  unfoldable pub erase_ticker : Str → M (Server J) (Unit {0})
  unfolding with_ticker_num
  erase_ticker key = modify λ s. with_ticker_num (erase key s.ticker_num) s

  unfoldable pub with_checks : StdMap Str → Server J → Server J
  with_checks m s = record s { f_ck_time_map = m }

  unfoldable pub add_check : Str → Str → M (Server J) (Unit {0})
  unfolding with_checks
  add_check id key = modify λ s. with_checks (insert id key s.f_ck_time_map) s

  unfoldable pub erase_check : Str → M (Server J) (Unit {0})
  unfolding with_checks
  erase_check id = modify λ s. with_checks (erase id s.f_ck_time_map) s

  unfoldable pub start_receive : M (Server J) (Unit {0})
  start_receive = modify λ s. record s { receiving = true }

module _ {J : Type 0} (E : Env J) where
  -- `clientHandler->sendTo`, whose status is ignored.
  unfoldable pub send : Str → ℕ → J → M (Server J) (Unit {0})
  unfolding send_to
  send ip port msg = modify λ s. record s { sent = (send_to E ip port (E.dump msg) s.sent).1 }

  -- Three datagrams; the sleeps between them change nothing.
  unfoldable pub send_thrice : Str → ℕ → J → M (Server J) (Unit {0})
  send_thrice ip port msg = do send ip port msg; send ip port msg; send ip port msg

  unfoldable pub gen_uuid : M (Server J) Str
  gen_uuid = do n ← gets (λ s. s.drawn); modify (λ s. record s { drawn = n + 1 }); pure (E.uuid n)

  unfoldable pub public_node : Str → M (Server J) Str
  public_node id = do m ← gets (λ s. s.man_host); get_public_node E id m
