-- ===== src/Server/Interleave/Whole.antt =====
-- A round of the timer (`threadhandle`, server.cpp) as turns with no call of the handler between them.
use nat.Prelude.{ℕ, Str, Option, none, some, Bool, true, false, ◌||◌, ◌≡◌, refl, ap, subst, ◌∙◌}
use nat.StdMap.{find}
use nat.StdMap.Iterator.{first_key, next_key}
use nat.External.{Env}
use nat.Effect.{done, pure, ◌>>=◌, if◌run◌else◌}
use nat.Effect.Keeps.{after}
use nat.Effect.Yields.{>>=-eq-done, pure-eq-done}
use nat.Server.State.{Server}
use nat.Server.Messages.{update_msg}
use nat.Server.Route.{notify, update_route_info}
use nat.Server.Timer.{sweep_checks, sweep_tickers, tick_hosts, timer_round}
use nat.Server.Invariant.{IsOrdered}
use nat.Server.TimerStable.{Keeps-sweep_checks, Keeps-sweep_tickers, Keeps-tick_hosts}
use nat.Server.Live.{both, tick_live, notify_live}
use nat.Server.Live.Same.{each-sweep_tickers, each-tick_hosts, each-notify}
use nat.Server.Live.Round.{timed, tickers-Walks}
use nat.Server.Live.Whole.{ticks-Walks, notify-Walks}
use nat.Server.Interleave.{
  Place, asleep, ticking, telling, listing, Timer, at_place, turn, tick_turn, tell_turn,
}
use nat.Server.Interleave.Turns.{Turns, Turns-trans, one_turn, Turns-each}
use nat.Server.Interleave.Loops.{||_false, ||_assoc, at_count, Turns-sweep_checks, counted_turn}

module _ {J : Type 0} (E : Env J) where
  tick_turn-tick_live :
      (k v : Str) (t0 : Timer J) (s : Server J) (x : Unit {0}) (t : Server J)
      → find k s.host_list ≡ some v
      → tick_live E k v s ≡ done x t
      → tick_turn E k t0 s ≡ done (at_place E (ticking (next_key k s.host_list)) t0) t
  unfolding tick_turn ◌>>=◌
  tick_turn-tick_live k v t0 s x t here h = rw (here, h) refl

  tell_turn-notify_live :
      (msg : J) (k v : Str) (t0 : Timer J) (s : Server J) (x : Unit {0}) (t : Server J)
      → find k s.host_list ≡ some v
      → notify_live E msg k v s ≡ done x t
      → tell_turn E msg k t0 s ≡ done (at_place E (telling msg (next_key k s.host_list)) t0) t
  unfolding tell_turn ◌>>=◌
  tell_turn-notify_live msg k v t0 s x t here h = rw (here, h) refl

  module _ (clock now : ℕ) where
    abbrev at_tick : Bool → Unit {0} → Option Str → Timer J
    at_tick b x p = record { now = now; need_notify = b; place = ticking p }

    abbrev at_tell : J → Unit {0} → Option Str → Timer J
    at_tell msg x p = record { now = now; need_notify = true; place = telling msg p }

    abbrev at_place_of : Place J → Timer J
    at_place_of p = record { now = now; need_notify = false; place = p }

    Turns-sweep_tickers :
        (b lost : Bool) (s t : Server J)
        → IsOrdered s
        → sweep_tickers E s.ticker_num s ≡ done lost t
        → Turns E clock
            (at_count E clock now b (first_key s.ticker_num))
            s
            (at_count E clock now (b || lost) none)
            t
    Turns-sweep_tickers b lost s t i h =
        Turns-each E clock (λ r. r.ticker_num) ◌||◌ false (at_count E clock now) (tickers-Walks E)
          ||_false ||_assoc
          (λ a k n es r one u i here next on h.
            counted_turn E clock now a k n es r one u i here next h)
          s.ticker_num none b s lost t i refl (each-sweep_tickers E s.ticker_num s ∙ h)

    Turns-tick_hosts :
        (b : Bool) (s : Server J) (x : Unit {0}) (t : Server J)
        → IsOrdered s
        → tick_hosts E s.node_id s.local_ep_info s.host_list s ≡ done x t
        → Turns E clock (at_tick b tt (first_key s.host_list)) s (at_tick b tt none) t
    unfolding turn
    Turns-tick_hosts b s x t i h =
        let w = ticks-Walks E s.node_id s.local_ep_info in
        Turns-each E clock (λ r. r.host_list) both tt (at_tick b) w (λ a. refl) (λ a b c. refl)
          (λ a k v es r one u i here next on h. one_turn E clock (
            tick_turn-tick_live k v (at_tick b a (some k)) r one u here (w.same k v r i ∙ h)
            ∙ ap (λ m. done (at_tick b tt (first_key m)) u) next))
          s.host_list none tt s x t (i, record { name = refl; described = refl }) refl
          (each-tick_hosts E s.node_id s.local_ep_info s.host_list s ∙ h)

    Turns-notify :
        (msg : J) (s : Server J) (x : Unit {0}) (t : Server J)
        → IsOrdered s
        → notify E msg s.node_id s.host_list s ≡ done x t
        → Turns E clock (at_tell msg tt (first_key s.host_list)) s (at_tell msg tt none) t
    unfolding turn
    Turns-notify msg s x t i h =
        let w = notify-Walks E msg s.node_id in
        Turns-each E clock (λ r. r.host_list) both tt (at_tell msg) w (λ a. refl) (λ a b c. refl)
          (λ a k v es r one u i here next on h. one_turn E clock (
            tell_turn-notify_live msg k v (at_tell msg a (some k)) r one u here (w.same k v r i ∙ h)
            ∙ ap (λ m. done (at_tell msg tt (first_key m)) u) next))
          s.host_list none tt s x t (i, refl) refl (each-notify E msg s.node_id s.host_list s ∙ h)

    Turns-told :
        (b : Bool) (s : Server J) (x : Unit {0}) (t : Server J)
        → IsOrdered s
        → (if b run update_route_info E else pure tt) s ≡ done x t
        → Turns E clock (at_tick b tt none) s (at_place_of listing) t
    unfolding turn update_route_info ◌>>=◌ if◌run◌else◌
    Turns-told true s x t i h = Turns-trans E clock (one_turn E clock refl) (
        Turns-trans E clock (Turns-notify (update_msg E s.node_id s.host_list) s x t i h)
          (one_turn E clock refl))
    Turns-told false s x t i h =
        let (u, q) = pure-eq-done tt s x t h in
        subst (λ v. Turns E clock (at_tick false tt none) s (at_place_of listing) v) q
          (one_turn E clock refl)

  abbrev pub resting : ℕ → Timer J
  resting now = record { now = now; need_notify = false; place = asleep }

  -- A round of the timer that returns is a sequence of turns of its thread with no call of the handler
  -- between them: from asleep to asleep, the variable `needNotify` false at both ends, and with the
  -- same effect on the node. The node's maps are in order at the start.
  pub timer_round-Turns :
      (then now : ℕ) (s t : Server J)
      → IsOrdered s
      → timer_round E now s ≡ done tt t
      → Turns E now (resting then) s (resting now) t
  unfolding turn timer_round ◌>>=◌ if◌run◌else◌
  timer_round-Turns then now s t i h =
      let (late, s1, h1, g1) = >>=-eq-done (sweep_checks E now s.f_ck_time_map) _ s tt t h in
      let i1 = after (Keeps-sweep_checks E (timed E) now s.f_ck_time_map) s late s1 i h1 in
      let (lost, s2, h2, g2) = >>=-eq-done (sweep_tickers E s1.ticker_num) _ s1 tt t g1 in
      let i2 = after (Keeps-sweep_tickers E (timed E) s1.ticker_num) s1 lost s2 i1 h2 in
      let (x, s3, h3, g3) =
        >>=-eq-done (tick_hosts E s2.node_id s2.local_ep_info s2.host_list) _ s2 tt t g2 in
      let i3 =
        after (Keeps-tick_hosts E (timed E) s2.node_id s2.local_ep_info s2.host_list) s2 x s3 i2
          h3 in
      let (y, s4, h4, g4) =
        >>=-eq-done (if late || lost run update_route_info E else pure tt) _ s3 tt t g3 in
      Turns-trans E now (one_turn E now refl) (
        Turns-trans E now (Turns-sweep_checks E now now false late s s1 i h1) (
          Turns-trans E now (one_turn E now refl) (
            Turns-trans E now (Turns-sweep_tickers now now late lost s1 s2 i1 h2) (
              Turns-trans E now (one_turn E now refl) (
                Turns-trans E now (Turns-tick_hosts now now (late || lost) s2 x s3 i2 h3) (
                  Turns-trans E now (Turns-told now now (late || lost) s3 y s4 i3 h4)
                    (one_turn E now (rw g4 refl))))))))
