-- ===== src/Server/Live.antt =====
-- The timer's round (`threadhandle`, server.cpp) with its loops as they run: each goes over a map of the
-- node by an iterator, while its body changes that map. Timer has the same loops over what the maps
-- hold at the start.
pub mod Same
pub mod Round
pub mod Whole
use nat.Prelude.{ℕ, Str, str_eq, leb, Bool, true, false, ◌||◌}
use nat.StdMap.{StdMap, erase}
use nat.External.{Env}
use nat.Effect.{M, pure, gets, require, modify, ◌>>=◌, ◌>>◌, if◌run◌else◌}
use nat.Effect.Iterate.{loop}
use nat.Describe.{node_ip, node_port}
use nat.Server.State.{Server, with_hosts, erase_ticker, send}
use nat.Server.Messages.{update_msg}
use nat.Server.Ticker.{ticker_key}
use nat.Server.Timer.{package_num, check_entry, tick_host, list_msg_queue}

-- The results of two turns that have none.
abbrev pub both : Unit {0} → Unit {0} → Unit {0}
both x y = tt

module _ {J : Type 0} (E : Env J) where
  unfoldable pub prune_host : Str → Str → Str → M (Server J) (Unit {0})
  prune_host key k v = do
    item ← require (E.parse v)
    ip ← require (node_ip E item)
    port ← require (node_port E item)
    if str_eq (ticker_key ip port) key
        run modify (λ s. with_hosts (erase k s.host_list) s)
        else pure tt

  unfoldable pub prune_live : Str → M (Server J) (Unit {0})
  prune_live key = loop (λ s. s.host_list) both tt (prune_host key)

  unfoldable pub expire_live : Str → ℕ → M (Server J) Bool
  expire_live key n =
      if leb package_num n run (do prune_live key; erase_ticker key; pure true) else pure false

  unfoldable pub tickers_live : M (Server J) Bool
  tickers_live = loop (λ s. s.ticker_num) ◌||◌ false expire_live

  unfoldable pub checks_live : ℕ → M (Server J) Bool
  checks_live now = loop (λ s. s.f_ck_time_map) ◌||◌ false (check_entry E now)

  unfoldable pub tick_live : Str → Str → M (Server J) (Unit {0})
  tick_live k v = do
    item ← require (E.parse v)
    own ← gets (λ s. s.node_id)
    info ← gets (λ s. s.local_ep_info)
    tick_host E own info k item

  unfoldable pub ticks_live : M (Server J) (Unit {0})
  ticks_live = loop (λ s. s.host_list) both tt tick_live

  unfoldable pub notify_live : J → Str → Str → M (Server J) (Unit {0})
  notify_live msg k v = do
    item ← require (E.parse v)
    own ← gets (λ s. s.node_id)
    if str_eq k own
        run pure tt
        else do ip ← require (node_ip E item); port ← require (node_port E item); send E ip port msg

  unfoldable pub update_live : M (Server J) (Unit {0})
  update_live = do
    own ← gets (λ s. s.node_id)
    hosts ← gets (λ s. s.host_list)
    loop (λ s. s.host_list) both tt (notify_live (update_msg E own hosts))

  unfoldable pub timer_live : ℕ → M (Server J) (Unit {0})
  timer_live now = do
    late ← checks_live now
    lost ← tickers_live
    ticks_live
    if late || lost run update_live else pure tt
    list_msg_queue E
