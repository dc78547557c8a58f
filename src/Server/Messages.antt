-- ===== src/Server/Messages.antt =====
-- The JSON messages that the node sends (server.cpp, main.cpp).
use nat.Prelude.{ℕ, Str, codes, [], ◌∷◌, map}
use nat.StdMap.{StdMap}
use nat.External.{Env}

module _ {J : Type 0} (E : Env J) where
  -- `json tst(manHost->_HostList)`: an object of strings.
  unfoldable pub hosts_json : StdMap Str → J
  hosts_json hosts = E.obj (map (λ h. (h.0, E.str h.1)) hosts)

  unfoldable pub data_msg : Str → Str → J → J
  data_msg msgtype node_id content = E.obj (
      (codes "data", content)
      ∷ (codes "msgtype", E.str msgtype)
      ∷ (codes "nodeID", E.str node_id)
      ∷ [])

  unfoldable pub update_msg : Str → StdMap Str → J
  unfolding data_msg hosts_json
  update_msg node_id hosts = data_msg (codes "update") node_id (hosts_json hosts)

  unfoldable pub open_connect_msg : Str → J → J
  unfolding data_msg
  open_connect_msg node_id info = data_msg (codes "openconnect") node_id info

  unfoldable pub proxy_connect_msg : Str → J → J
  unfolding data_msg
  proxy_connect_msg node_id item = data_msg (codes "proxyconnect") node_id item

  unfoldable pub help_connect_msg : Str → J → J
  unfolding data_msg
  help_connect_msg node_id body = data_msg (codes "helpconnect") node_id body

  unfoldable pub filtering_check_msg : Str → Str → ℕ → Str → J
  filtering_check_msg node_id ip port msg_id = E.obj (
      (codes "ip", E.str ip)
      ∷ (codes "msgid", E.str msg_id)
      ∷ (codes "msgtype", E.str (codes "filteringcheck"))
      ∷ (codes "nodeID", E.str node_id)
      ∷ (codes "port", E.num port)
      ∷ [])

  unfoldable pub call_client_msg : Str → Str → ℕ → Str → ℕ → Str → J
  call_client_msg node_id ip port origin_ip origin_port msg_id = E.obj (
      (codes "ip", E.str ip)
      ∷ (codes "msgid", E.str msg_id)
      ∷ (codes "msgtype", E.str (codes "callclient"))
      ∷ (codes "nodeID", E.str node_id)
      ∷ (codes "originip", E.str origin_ip)
      ∷ (codes "originport", E.num origin_port)
      ∷ (codes "port", E.num port)
      ∷ [])

  -- The source writes `nodeID` twice; the first stands, and both are the node's own.
  unfoldable pub call_client_res_msg : Str → Str → ℕ → Str → J
  call_client_res_msg node_id ip port msg_id = E.obj (
      (codes "ip", E.str ip)
      ∷ (codes "msgid", E.str msg_id)
      ∷ (codes "msgtype", E.str (codes "callclientRes"))
      ∷ (codes "nodeID", E.str node_id)
      ∷ (codes "port", E.num port)
      ∷ [])

  unfoldable pub ticker_msg : Str → J → Str → J
  ticker_msg node_id info msg_id = E.obj (
      (codes "data", info)
      ∷ (codes "msgid", E.str msg_id)
      ∷ (codes "msgtype", E.str (codes "ticker"))
      ∷ (codes "nodeID", E.str node_id)
      ∷ [])

  unfoldable pub ticker_res_msg : Str → Str → J
  ticker_res_msg node_id msg_id = E.obj (
      (codes "msgid", E.str msg_id)
      ∷ (codes "msgtype", E.str (codes "tickerRes"))
      ∷ (codes "nodeID", E.str node_id)
      ∷ [])

  unfoldable pub local_json : Str → Str → J
  local_json ip port = E.obj ((codes "localip", E.str ip) ∷ (codes "localport", E.str port) ∷ [])

  -- `servermode` of main.cpp, and `listMsgQueue`.
  unfoldable pub detect_msg : Str → Str → Str → J
  unfolding data_msg local_json
  detect_msg node_id ip port = data_msg (codes "detect") node_id (local_json ip port)

  -- `bind` of main.cpp: there is no node, and no `nodeID`.
  unfoldable pub bind_msg : Str → J
  unfolding local_json
  bind_msg port = E.obj (
      (codes "data", local_json (codes "10.0.0.1") port)
      ∷ (codes "msgtype", E.str (codes "detect"))
      ∷ [])
