-- ===== src/Server/Start.antt =====
-- The constructor of `udpServer` (server.cpp). The two threads that it starts are the timer, whose
-- rounds are in Timer, and one that only sleeps; their loops are in Threads.
use nat.Prelude.{ℕ, Str, Bool, true, [], ◌∷◌, if◌then◌else◌}
use nat.External.{Env}
use nat.Describe.{endpoint_json, public_json}
use nat.Server.State.{Server}

module _ {J : Type 0} (E : Env J) where
  unfoldable pub start : Str → ℕ → ℕ → Bool → Str → Server J
  unfolding public_json endpoint_json
  start rip rport port publicflag local_ip = record {
    man_host = record { host_list = [] };
    public_nodes = if publicflag then E.dump (endpoint_json E local_ip port) ∷ [] else [];
    f_ck_time_map = [];
    ticker_num = [];
    local_ep_info = if publicflag then public_json E local_ip port else E.null;
    public_flag = publicflag;
    node_id = E.uuid 0;
    local_ip = local_ip;
    local_port = port;
    from_cli_ip = rip;
    from_cli_port = rport;
    count = 0;
    receiving = true;
    drawn = 1;
    sent = [];
  }
