-- ===== src/Server/RoundThrows.antt =====
-- How the parts of a round of the timer (`threadhandle`, server.cpp) can fail.
use nat.Prelude.{ℕ, Str, [], ◌∷◌}
use nat.StdMap.{StdMap}
use nat.External.{Env}
use nat.Effect.Throws.{Throws, Throws-pure, Throws-require, Throws-bind, throws_rules}
use nat.Server.State.{erase_ticker, send}
use nat.Server.Route.{notify, update_route_info}
use nat.Server.Timer.{
  prune_hosts, expire_ticker, sweep_tickers, tick_host, tick_hosts, list_msg_queue,
}

module _ {J : Type 0} (E : Env J) where
  pub Throws-send : (to : Str) (at : ℕ) (msg : J) → Throws (send E to at msg)
  unfolding send
  Throws-send to at msg = search throws_rules

  Throws-notify : (msg : J) (own : Str) (hosts : StdMap Str) → Throws (notify E msg own hosts)
  unfolding notify
  Throws-notify msg own [] = search throws_rules
  Throws-notify msg own ((k, v) ∷ hosts) = Throws-bind _ _ (Throws-require _) λ item.
      Throws-bind _ _ (search (throws_rules, Throws-send) depth 12) λ _. Throws-notify msg own hosts

  pub Throws-update_route_info : Throws (update_route_info E)
  unfolding update_route_info
  Throws-update_route_info = search (throws_rules, Throws-notify) depth 12

  Throws-prune_hosts : (key : Str) (hosts : StdMap Str) → Throws (prune_hosts E key hosts)
  unfolding prune_hosts
  Throws-prune_hosts key [] = search throws_rules
  Throws-prune_hosts key ((k, v) ∷ hosts) = Throws-bind _ _ (Throws-require _) λ item.
      Throws-bind _ _ (Throws-require _) λ ip.
        Throws-bind _ _ (Throws-require _)
          λ port. Throws-bind _ _ (search throws_rules) λ _. Throws-prune_hosts key hosts

  Throws-expire_ticker : (key : Str) (n : ℕ) → Throws (expire_ticker E key n)
  unfolding expire_ticker erase_ticker
  Throws-expire_ticker key n = search (throws_rules, Throws-prune_hosts) depth 12

  pub Throws-sweep_tickers : (tickers : StdMap ℕ) → Throws (sweep_tickers E tickers)
  unfolding sweep_tickers
  Throws-sweep_tickers [] = search throws_rules
  Throws-sweep_tickers ((key, n) ∷ entries) =
      Throws-bind _ _ (Throws-expire_ticker key n)
        λ one. Throws-bind _ _ (Throws-sweep_tickers entries) λ more. Throws-pure _

  pub Throws-tick_hosts :
      (own : Str) (info : J) (hosts : StdMap Str) → Throws (tick_hosts E own info hosts)
  unfolding tick_hosts tick_host
  Throws-tick_hosts own info [] = search throws_rules
  Throws-tick_hosts own info ((k, v) ∷ hosts) = Throws-bind _ _ (Throws-require _) λ item.
      Throws-bind _ _ (search (throws_rules, Throws-send) depth 12)
        λ _. Throws-tick_hosts own info hosts

  pub Throws-list_msg_queue : Throws (list_msg_queue E)
  unfolding list_msg_queue
  Throws-list_msg_queue = search (throws_rules, Throws-send) depth 16
