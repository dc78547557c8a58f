-- ===== src/Server/Interleave/Races.antt =====
-- Handlers (server.cpp) that take away the entry at which the timer's thread stands.
use nat.Prelude.{ℕ, Str, str_eq_refl, some, none, ◌≡◌, refl, sym, ap, ◌∙◌}
use nat.StdMap.{StdMap, find, IsSorted, find-erase}
use nat.External.{Env}
use nat.Effect.{done, fails, undefined, ◌>>=◌}
use nat.Server.State.{Server, with_checks, with_hosts}
use nat.Server.Messages.{call_client_res_msg}
use nat.Server.Route.Recipients.{update_route_info-Addressed}
use nat.Server.Filtering.{call_client_res}
use nat.Server.ProbeAnswer.{confirmed, call_client_res-confirms}
use nat.Server.Ticker.{ticker, ticker_key}
use nat.Server.Heartbeat.{find-ticker}
use nat.Server.Interleave.{
  checking, counting, pruning, Timer, turn, check_turn, count_turn, drop_turn,
}

module _ {J : Type 0} (E : Env J) where
  -- A "ticker" is handled while the timer's thread stands at the entry of `tickerNum` for the endpoint
  -- that it came from, before it reads the count or before it erases the entry after its pass over the
  -- nodes: the thread's next turn is undefined behaviour.
  pub turn-ticker :
      (ip : Str) (port : ℕ) (msg : J) (clock : ℕ) (t : Timer J) (s u : Server J)
      → IsSorted s.ticker_num
      → ticker E ip port msg s ≡ done tt u
      → (turn E clock t (counting (some (ticker_key ip port))) u ≡ fails undefined u)
        × (turn E clock t (pruning (ticker_key ip port) none) u ≡ fails undefined u)
  unfolding turn count_turn drop_turn ◌>>=◌
  turn-ticker ip port msg clock t s u sorted h =
      let gone : find (ticker_key ip port) u.ticker_num ≡ none =
        find-ticker E ip port msg s u (ticker_key ip port) sorted h
        ∙ rw (str_eq_refl (ticker_key ip port)) refl in
      (rw gone refl, rw gone refl)

  -- An answer to a filtering probe about a node that is known is handled while the timer's thread stands
  -- at the entry of `fCkTimeMap` with the ID in the answer: the thread's next turn is undefined
  -- behaviour.
  pub turn-call_client_res :
      (node id nip text : Str) (nport : ℕ) (fs : StdMap J) (clock : ℕ) (t : Timer J)
      (s u : Server J)
      → IsSorted s.f_ck_time_map
      → find node s.host_list ≡ some text
      → E.parse text ≡ some (E.obj fs)
      → call_client_res E (call_client_res_msg E node nip nport id) s ≡ done tt u
      → turn E clock t (checking (some id)) u ≡ fails undefined u
  unfolding turn check_turn confirmed with_checks with_hosts ◌>>=◌
  turn-call_client_res node id nip text nport fs clock t s u sorted known read h =
      let (to, a, e) =
        update_route_info-Addressed E (confirmed E node id fs s) u
          (sym (call_client_res-confirms E node id nip text nport fs s known read) ∙ h) in
      let gone : find id u.f_ck_time_map ≡ none =
        ap (λ r. find {V = Str} id r.f_ck_time_map) e
        ∙ find-erase id id s.f_ck_time_map sorted
        ∙ rw (str_eq_refl id) refl in
      rw gone refl
