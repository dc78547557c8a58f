-- ===== src/Server/TimerStable.antt =====
-- A property that each elementary change of a timer round keeps is kept by the round.
use nat.Prelude.{ℕ, Str, Option, none, some, [], ◌∷◌}
use nat.StdMap.{StdMap, erase}
use nat.External.{Env}
use nat.Effect.Keeps.{
  Keeps, Keeps-pure, Keeps-require, Keeps-modify, Keeps-if, Keeps-bind, keeps_rules,
}
use nat.Server.State.{
  Server, with_hosts, with_ticker_num, assign_node, erase_ticker, erase_check, send,
}
use nat.Server.Detect.Keeps.{Keeps-update_route_info}
use nat.Server.Filtering.{mark_filtering}
use nat.Server.Timer.{
  filter_host, expire_check, check_entry, sweep_checks, prune_hosts, expire_ticker, sweep_tickers,
  bump, tick_host, tick_hosts, list_msg_queue, timer_round,
}

module _ {J : Type 0} (E : Env J) where
  -- What a round does to the state.
  pub record IsTimed (P : Server J → Type 0) : Type 0 where
    pub assign : (id info : Str) → Keeps P (assign_node id info)
    pub sends : (to : Str) (at : ℕ) (msg : J) → Keeps P (send E to at msg)
    pub uncheck : (id : Str) → Keeps P (erase_check id)
    pub untick : (key : Str) → Keeps P (erase_ticker key)
    pub drop : (s : Server J) (k : Str) → P s → P (with_hosts (erase k s.host_list) s)
    pub bumps : (s : Server J) (key : Str) → P s → P (with_ticker_num (bump key s.ticker_num) s)
    pub counts : Keeps P (list_msg_queue E)

  module _ {P : Server J → Type 0} (assign : (id info : Str) → Keeps P (assign_node id info)) where
    Keeps-mark_filtering :
        (filtering node text : Str) → Keeps P (mark_filtering E filtering node text)
    unfolding mark_filtering
    Keeps-mark_filtering filtering node text = search (keeps_rules, assign) depth 12

    pub Keeps-filter_host : (host : Str) (o : Option Str) → Keeps P (filter_host E host o)
    unfolding filter_host
    Keeps-filter_host host none = search keeps_rules
    Keeps-filter_host host (some text) = Keeps-mark_filtering _ host text

  module _ {P : Server J → Type 0}
      (drop : (s : Server J) (k : Str) → P s → P (with_hosts (erase k s.host_list) s)) where
    pub Keeps-prune_hosts : (key : Str) (hosts : StdMap Str) → Keeps P (prune_hosts E key hosts)
    unfolding prune_hosts
    Keeps-prune_hosts key [] = search keeps_rules
    Keeps-prune_hosts key ((k, v) ∷ hosts) = Keeps-bind _ _ (Keeps-require _) λ item.
        Keeps-bind _ _ (Keeps-require _) λ ip. Keeps-bind _ _ (Keeps-require _) λ port.
          Keeps-bind _ _ (Keeps-if _ _ _ (Keeps-modify _ (λ s. drop s k)) (Keeps-pure tt))
            λ _. Keeps-prune_hosts key hosts

  module _ {P : Server J → Type 0}
      (sends : (to : Str) (at : ℕ) (msg : J) → Keeps P (send E to at msg))
      (bumps : (s : Server J) (key : Str)
        → P s
        → P (with_ticker_num (bump key s.ticker_num) s)) where
    pub Keeps-tick_host :
        (own : Str) (info : J) (k : Str) (item : J) → Keeps P (tick_host E own info k item)
    unfolding tick_host
    Keeps-tick_host own info k item = search (keeps_rules, Keeps-modify, sends, bumps) depth 12

  module _ {P : Server J → Type 0} (id : Str)
      (assign : (node info : Str) → Keeps P (assign_node node info))
      (uncheck : Keeps P (erase_check id)) where
    Keeps-expire_check : (kind host : Str) → Keeps P (expire_check E id kind host)
    unfolding expire_check
    Keeps-expire_check kind host = search (keeps_rules, uncheck, Keeps-filter_host assign) depth 12

    pub Keeps-check_entry : (now : ℕ) (key : Str) → Keeps P (check_entry E now id key)
    unfolding check_entry
    Keeps-check_entry now key = search (keeps_rules, Keeps-expire_check) depth 12

  module _ {P : Server J → Type 0} (key : Str)
      (drop : (s : Server J) (k : Str) → P s → P (with_hosts (erase k s.host_list) s))
      (untick : Keeps P (erase_ticker key)) where
    pub Keeps-expire_ticker : (n : ℕ) → Keeps P (expire_ticker E key n)
    unfolding expire_ticker
    Keeps-expire_ticker n = search (keeps_rules, untick, Keeps-prune_hosts drop) depth 12

  module _ {P : Server J → Type 0} (st : IsTimed P) where
    open st use {assign, sends, uncheck, untick, drop, bumps, counts}

    pub Keeps-sweep_checks : (now : ℕ) (checks : StdMap Str) → Keeps P (sweep_checks E now checks)
    unfolding sweep_checks
    Keeps-sweep_checks now [] = search keeps_rules
    Keeps-sweep_checks now ((id, key) ∷ entries) =
        Keeps-bind _ _ (Keeps-check_entry id assign (uncheck id) now key)
          λ one. Keeps-bind _ _ (Keeps-sweep_checks now entries) λ more. Keeps-pure _

    pub Keeps-sweep_tickers : (tickers : StdMap ℕ) → Keeps P (sweep_tickers E tickers)
    unfolding sweep_tickers
    Keeps-sweep_tickers [] = search keeps_rules
    Keeps-sweep_tickers ((key, n) ∷ entries) =
        Keeps-bind _ _ (Keeps-expire_ticker key drop (untick key) n)
          λ one. Keeps-bind _ _ (Keeps-sweep_tickers entries) λ more. Keeps-pure _

    pub Keeps-tick_hosts :
        (own : Str) (info : J) (hosts : StdMap Str) → Keeps P (tick_hosts E own info hosts)
    unfolding tick_hosts
    Keeps-tick_hosts own info [] = search keeps_rules
    Keeps-tick_hosts own info ((k, v) ∷ hosts) = Keeps-bind _ _ (Keeps-require _) λ item.
        Keeps-bind _ _ (Keeps-tick_host sends bumps own info k item)
          λ _. Keeps-tick_hosts own info hosts

    pub Keeps-timer_round : (now : ℕ) → Keeps P (timer_round E now)
    unfolding timer_round
    Keeps-timer_round now =
        search
          (
            keeps_rules,
            counts,
            Keeps-sweep_checks,
            Keeps-sweep_tickers,
            Keeps-tick_hosts,
            Keeps-update_route_info E sends,
          )
          depth 16
