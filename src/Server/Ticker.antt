-- ===== src/Server/Ticker.antt =====
-- The heartbeat messages "ticker" and "tickerRes" (`handleReceive`, server.cpp).
use nat.Prelude.{ℕ, Str, codes, to_string, ◌∷◌, ◌++◌}
use nat.External.{Env}
use nat.Effect.{M, pure, gets, require, ◌>>=◌, ◌>>◌, if◌run◌else◌}
use nat.Describe.{string_at}
use nat.Server.State.{Server, erase_ticker, send}
use nat.Server.Messages.{ticker_res_msg}
use nat.Server.Connect.{store_node}

-- `"ticker_" + ip + "_" + to_string(port)`.
unfoldable pub ticker_key : Str → ℕ → Str
ticker_key ip port = codes "ticker_" ++ (ip ++ 95 ∷ to_string port)

module _ {J : Type 0} (E : Env J) where
  unfoldable pub ticker : Str → ℕ → J → M (Server J) (Unit {0})
  ticker remote_ip remote_port msg = do
    own ← gets (λ s. s.node_id)
    content ← require (E.at (codes "data") msg)
    msg_id ← require (string_at E (codes "msgid") msg)
    node ← require (string_at E (codes "nodeID") msg)
    if E.is_null content run pure tt else store_node E node content
    send E remote_ip remote_port (ticker_res_msg E own msg_id)
    erase_ticker (ticker_key remote_ip remote_port)

  unfoldable pub ticker_res : Str → ℕ → J → M (Server J) (Unit {0})
  ticker_res remote_ip remote_port msg = do
    msg_id ← require (string_at E (codes "msgid") msg)
    erase_ticker (ticker_key remote_ip remote_port)
