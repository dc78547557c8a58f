-- ===== src/Server/Stable.antt =====
-- Properties of the node's state that the elementary changes keep, and the handlers (server.cpp).
use nat.Prelude.{ℕ, Str, Bool, Option, none, some, List}
use nat.External.{Env}
use nat.Effect.Keeps.{Keeps, Keeps-modify, keeps_rules}
use nat.Server.State.{
  Server, add_node, assign_node, erase_ticker, add_check, erase_check, send, send_thrice, gen_uuid,
  start_receive,
}
use nat.Server.Detect.{check_key}
use nat.Server.Update.{take_own, take_update, update}
use nat.Server.Connect.{proxy_connect, help_connect, is_moved, store_node, open_connect}
use nat.Server.Filtering.{filtering_check, call_client, mark_filtering, confirm, call_client_res}
use nat.Server.Ticker.{ticker, ticker_res}
use nat.Server.Receive.{
  Datagram, RecvError, other_error, then_listen, dispatch, typed, parsed, body, handle_receive,
}
use nat.Server.Detect.Keeps.{IsListed, Keeps-detect, Keeps-update_route_info}
use nat.Server.Update.Keeps.{Keeps-update_items}

module _ {J : Type 0} (E : Env J) where
  -- What a handler does to the state, one field for each kind of change. The keys that it adds to the
  -- time map are those of a probe at `now` of the node at `ip` and `port`.
  pub record IsStable (P : Server J → Type 0) (now : ℕ) (ip : Str) (port : ℕ) : Type 0 where
    pub add : (id info : Str) → Keeps P (add_node id info)
    pub assign : (id info : Str) → Keeps P (assign_node id info)
    pub sends : (to : Str) (at : ℕ) (msg : J) → Keeps P (send E to at msg)
    pub check : (id node : Str) → Keeps P (add_check id (check_key now ip port node))
    pub uncheck : (id : Str) → Keeps P (erase_check id)
    pub untick : (key : Str) → Keeps P (erase_ticker key)
    pub draw : Keeps P (gen_uuid E)
    pub info : (s : Server J) (j : J) → P s → P (record s { local_ep_info = j })
    pub publics : (s : Server J) (ns : List Str) → P s → P (record s { public_nodes = ns })

  module _ {P : Server J → Type 0} where
    Keeps-is_moved : (ip : Str) (port : ℕ) (content : J) → Keeps P (is_moved E ip port content)
    unfolding is_moved
    Keeps-is_moved ip port content = search keeps_rules

  module _ {P : Server J → Type 0} {now : ℕ} {ip : Str} {port : ℕ}
      (st : IsStable P now ip port) where
    open st use {add, assign, sends, check, uncheck, untick, draw, info, publics}

    pub listed : IsListed E P now ip port
    listed = record { add = add; sends = sends; check = check; draw = draw }

    Keeps-take_own : (j : J) (o : Option J) → Keeps P (take_own E j o)
    unfolding take_own
    Keeps-take_own j none = search keeps_rules
    Keeps-take_own j (some v) = search (keeps_rules, Keeps-modify, info) depth 12

    Keeps-update :
        (to : Str) (at : ℕ) (sender : Str) (msg : J) → Keeps P (update E to at sender msg)
    unfolding update take_update
    Keeps-update to at sender msg =
        search (keeps_rules, Keeps-take_own, Keeps-update_items E add sends publics) depth 12

    Keeps-send_thrice : (to : Str) (at : ℕ) (msg : J) → Keeps P (send_thrice E to at msg)
    unfolding send_thrice
    Keeps-send_thrice to at msg = search (keeps_rules, sends) depth 12

    Keeps-proxy_connect : (to : Str) (at : ℕ) (msg : J) → Keeps P (proxy_connect E to at msg)
    unfolding proxy_connect
    Keeps-proxy_connect to at msg = search (keeps_rules, sends) depth 12

    Keeps-help_connect : (msg : J) → Keeps P (help_connect E msg)
    unfolding help_connect
    Keeps-help_connect msg = search (keeps_rules, Keeps-send_thrice) depth 12

    Keeps-store_node : (node : Str) (j : J) → Keeps P (store_node E node j)
    unfolding store_node
    Keeps-store_node node j = search (keeps_rules, add, assign) depth 12

    Keeps-open_connect :
        (to : Str) (at : ℕ) (node : Str) (msg : J) → Keeps P (open_connect E to at node msg)
    unfolding open_connect
    Keeps-open_connect to at node msg =
        search (keeps_rules, add, Keeps-is_moved, Keeps-store_node) depth 12

    Keeps-filtering_check : (to : Str) (at : ℕ) (msg : J) → Keeps P (filtering_check E to at msg)
    unfolding filtering_check
    Keeps-filtering_check to at msg = search (keeps_rules, sends) depth 12

    Keeps-call_client : (to : Str) (at : ℕ) (msg : J) → Keeps P (call_client E to at msg)
    unfolding call_client
    Keeps-call_client to at msg = search (keeps_rules, Keeps-send_thrice) depth 12

    pub Keeps-mark_filtering :
        (filtering node text : Str) → Keeps P (mark_filtering E filtering node text)
    unfolding mark_filtering
    Keeps-mark_filtering filtering node text = search (keeps_rules, assign) depth 12

    Keeps-confirm : (node : Str) (msg : J) (o : Option Str) → Keeps P (confirm E node msg o)
    unfolding confirm
    Keeps-confirm node msg none = search keeps_rules
    Keeps-confirm node msg (some text) =
        search (keeps_rules, uncheck, Keeps-mark_filtering) depth 12

    Keeps-call_client_res : (msg : J) → Keeps P (call_client_res E msg)
    unfolding call_client_res
    Keeps-call_client_res msg =
        search (keeps_rules, Keeps-confirm, Keeps-update_route_info E sends) depth 12

    Keeps-ticker : (to : Str) (at : ℕ) (msg : J) → Keeps P (ticker E to at msg)
    unfolding ticker
    Keeps-ticker to at msg = search (keeps_rules, sends, untick, Keeps-store_node) depth 14

    Keeps-ticker_res : (to : Str) (at : ℕ) (msg : J) → Keeps P (ticker_res E to at msg)
    unfolding ticker_res
    Keeps-ticker_res to at msg = search (keeps_rules, untick) depth 12

  module _ {P : Server J → Type 0} (d : Datagram) (st : IsStable P d.now d.ip d.port) where
    pub Keeps-dispatch : (msgtype node : Str) (msg : J) → Keeps P (dispatch E d msgtype node msg)
    unfolding dispatch then_listen
    Keeps-dispatch msgtype node msg =
        search
          (
            keeps_rules,
            Keeps-detect E (listed st),
            Keeps-update st,
            Keeps-proxy_connect st,
            Keeps-help_connect st,
            Keeps-open_connect st,
            Keeps-filtering_check st,
            Keeps-call_client st,
            Keeps-call_client_res st,
            Keeps-ticker st,
            Keeps-ticker_res st,
          )
          depth 20

    Keeps-typed : (msg : J) (o : Option J) → Keeps P (typed E d msg o)
    unfolding typed
    Keeps-typed msg none = search keeps_rules
    Keeps-typed msg (some t) = search (keeps_rules, Keeps-dispatch) depth 12

    Keeps-parsed : (o : Option J) → Keeps P (parsed E d o)
    unfolding parsed
    Keeps-parsed none = search keeps_rules
    Keeps-parsed (some msg) = search (keeps_rules, Keeps-typed) depth 12

    pub Keeps-body : Keeps P (body E d)
    unfolding body
    Keeps-body = search (keeps_rules, Keeps-parsed) depth 12

    -- The whole handler keeps what also does not turn on the pending receive.
    pub Keeps-handle_receive :
        (err : RecvError)
        → ((s : Server J) (b : Bool) → P s → P (record s { receiving = b }))
        → Keeps P (handle_receive E err d)
    unfolding handle_receive start_receive
    Keeps-handle_receive other_error k = search (keeps_rules, Keeps-modify, k) depth 12
    Keeps-handle_receive _ k = search (keeps_rules, Keeps-modify, k, Keeps-body) depth 12
