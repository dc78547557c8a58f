-- ===== src/Server/Live/Whole.antt =====
-- The last two loops of a round of the timer (`threadhandle`, server.cpp), and the round.
use nat.Prelude.{ℕ, Str, Bool, true, false, ◌||◌, ◌≡◌, refl, ◌∙◌, inl, inr, Option-cases}
use nat.External.{Env}
use nat.Effect.{pure, ◌>>=◌, if◌run◌else◌}
use nat.Effect.Keeps.{
  Keeps-both, after, Keeps, Keeps-bind, Keeps-require, Keeps-modify, keeps_rules,
}
use nat.Effect.Iterate.{loop-each, Walks, >>=_congr}
use nat.Server.State.{Server, with_ticker_num, send}
use nat.Server.Messages.{update_msg}
use nat.Server.Route.{update_route_info}
use nat.Server.Timer.{bump, sweep_checks, sweep_tickers, tick_hosts, timer_round}
use nat.Server.Invariant.{IsOrdered}
use nat.Server.TimerStable.{
  Keeps-tick_host, Keeps-sweep_checks, Keeps-sweep_tickers, Keeps-tick_hosts,
}
use nat.Server.Live.{
  both, tickers_live, checks_live, tick_live, ticks_live, notify_live, update_live, timer_live,
}
use nat.Server.Live.Same.{tick_body, each-tick_hosts, notify_body, each-notify}
use nat.Server.Live.Round.{timed, tickers_live-sweep_tickers, checks_live-sweep_checks}

-- The ID and the description that a loop began with.
pub record IsNamed {J : Type 0} (own : Str) (info : J) (s : Server J) : Type 0 where
  pub name : s.node_id ≡ own
  pub described : s.local_ep_info ≡ info

module _ {J : Type 0} (E : Env J) where
  Inv : Str → J → Server J → Type 0
  Inv own info s = IsOrdered s × IsNamed own info s

  Keeps-tick_body :
      {P : Server J → Type 0} (own : Str) (info : J) (k v : Str)
      → ((to : Str) (at : ℕ) (msg : J) → Keeps P (send E to at msg))
      → ((s : Server J) (key : Str) → P s → P (with_ticker_num (bump key s.ticker_num) s))
      → Keeps P (tick_body E own info k v)
  unfolding tick_body
  Keeps-tick_body own info k v sends bumps =
      Keeps-bind _ _ (Keeps-require _) λ item. Keeps-tick_host E sends bumps own info k item

  tick_live-tick_body :
      (own : Str) (info : J) (k v : Str) (s : Server J)
      → IsNamed own info s
      → tick_live E k v s ≡ tick_body E own info k v s
  unfolding tick_live tick_body ◌>>=◌
  tick_live-tick_body own info k v s h = elim (Option-cases (E.parse v)) [
    | inl e ↦ rw e refl
    | inr (item, e) ↦ rw (e, h.name, h.described) refl
  ]

  pub ticks-Walks :
      (own : Str) (info : J)
      → Walks
          (λ s. s.host_list)
          both
          tt
          (λ s. IsOrdered s × IsNamed own info s)
          (tick_live E)
          (tick_body E own info)
  unfolding with_ticker_num send
  ticks-Walks own info = record {
    sorted = λ s i. i.0.hosts;
    same = λ k v s i. tick_live-tick_body own info k v s i.1;
    kept = λ k v. Keeps-both (Keeps-tick_body own info k v (timed E).sends (timed E).bumps) (
        Keeps-tick_body own info k v
          (λ to at msg. Keeps-modify _ (λ r h. record { name = h.name; described = h.described }))
          (λ r key h. record { name = h.name; described = h.described }));
    leaves = λ k v s i.
        Keeps-tick_body own info k v (λ to at msg. Keeps-modify _ (λ r h. h)) (λ r key h. h);
  }

  ticks_live-tick_hosts :
      (s : Server J)
      → IsOrdered s
      → ticks_live E s ≡ tick_hosts E s.node_id s.local_ep_info s.host_list s
  unfolding ticks_live
  ticks_live-tick_hosts s i =
      loop-each (λ r. r.host_list) both tt (ticks-Walks s.node_id s.local_ep_info) s
        (i, record { name = refl; described = refl })
      ∙ each-tick_hosts E s.node_id s.local_ep_info s.host_list s

  Keeps-notify_body :
      {P : Server J → Type 0} (msg : J) (own k v : Str)
      → ((to : Str) (at : ℕ) (m : J) → Keeps P (send E to at m))
      → Keeps P (notify_body E msg own k v)
  unfolding notify_body
  Keeps-notify_body msg own k v sends = search (keeps_rules, sends) depth 12

  notify_live-notify_body :
      (msg : J) (own k v : Str) (s : Server J)
      → s.node_id ≡ own
      → notify_live E msg k v s ≡ notify_body E msg own k v s
  unfolding notify_live notify_body ◌>>=◌
  notify_live-notify_body msg own k v s h = elim (Option-cases (E.parse v)) [
    | inl e ↦ rw e refl
    | inr (item, e) ↦ rw (e, h) refl
  ]

  pub notify-Walks :
      (msg : J) (own : Str)
      → Walks
          (λ s. s.host_list)
          both
          tt
          (λ s. IsOrdered s × (s.node_id ≡ own))
          (notify_live E msg)
          (notify_body E msg own)
  unfolding send
  notify-Walks msg own = record {
    sorted = λ s i. i.0.hosts;
    same = λ k v s i. notify_live-notify_body msg own k v s i.1;
    kept = λ k v.
        Keeps-both (Keeps-notify_body msg own k v (timed E).sends)
          (Keeps-notify_body msg own k v (λ to at m. Keeps-modify _ (λ r h. h)));
    leaves = λ k v s i. Keeps-notify_body msg own k v (λ to at m. Keeps-modify _ (λ r h. h));
  }

  update_live-update_route_info :
      (s : Server J) → IsOrdered s → update_live E s ≡ update_route_info E s
  unfolding update_live update_route_info ◌>>=◌
  update_live-update_route_info s i =
      loop-each (λ r. r.host_list) both tt
        (notify-Walks (update_msg E s.node_id s.host_list) s.node_id) s (i, refl)
      ∙ each-notify E (update_msg E s.node_id s.host_list) s.node_id s.host_list s

  tell_live :
      (b : Bool) (s : Server J)
      → IsOrdered s
      → (if b run update_live E else pure tt) s ≡ (if b run update_route_info E else pure tt) s
  unfolding if◌run◌else◌
  tell_live true s i = update_live-update_route_info s i
  tell_live false s i = refl

  -- A round whose loops go over the maps by iterators, while their bodies erase entries and change
  -- others, does what the round does that goes over what the maps hold when each loop begins; where
  -- that fails, it fails alike. The node's maps are in order at the start. The fuel of each loop, one
  -- more than the entries of its map, is enough.
  pub timer_live-timer_round :
      (now : ℕ) (s : Server J) → IsOrdered s → timer_live E now s ≡ timer_round E now s
  unfolding timer_live timer_round ◌>>=◌
  timer_live-timer_round now s i =
      >>=_congr (checks_live E now) (λ r. sweep_checks E now r.f_ck_time_map r) _ _ s
        (checks_live-sweep_checks E now s i)
        (λ late t e.
          let it = after (Keeps-sweep_checks E (timed E) now s.f_ck_time_map) s late t i e in
          >>=_congr (tickers_live E) (λ r. sweep_tickers E r.ticker_num r) _ _ t
            (tickers_live-sweep_tickers E t it)
            (λ lost u f.
              let iu = after (Keeps-sweep_tickers E (timed E) t.ticker_num) t lost u it f in
              >>=_congr (ticks_live E) (λ r. tick_hosts E r.node_id r.local_ep_info r.host_list r) _
                _ u (ticks_live-tick_hosts u iu)
                (λ x v g.
                  >>=_congr (if late || lost run update_live E else pure tt)
                    (if late || lost run update_route_info E else pure tt) _ _ v
                    (tell_live (late || lost) v (
                      after (Keeps-tick_hosts E (timed E) u.node_id u.local_ep_info u.host_list) u x
                        v iu g))
                    (λ y w q. refl))))
