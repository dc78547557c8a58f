-- ===== src/Server/Runs.antt =====
-- Runs of a node over a sequence of events (server.cpp).
use nat.Prelude.{◌≢◌, true, false, List, [], ◌∷◌, ◌≡◌, refl, ap, ◌∙◌, not, arith}
use nat.External.{Env}
use nat.Effect.{done, final, ◌>>=◌, if◌run◌else◌}
use nat.Effect.Keeps.{Keeps, keeps, at_state, Keeps-bind, Keeps-pure}
use nat.Server.State.{
  Server, with_hosts, with_ticker_num, assign_node, erase_ticker, erase_check, send,
}
use nat.Server.Receive.{Datagram, no_error, other_error, handle_receive}
use nat.Server.Timer.{list_msg_queue}
use nat.Server.TimerStable.{IsTimed, Keeps-timer_round}
use nat.Server.Listening.{is_own_update, receiving-handle_receive}
use nat.Server.Threads.{Event, arrives, wakes, sleeps, msg_thread, threadhandle, happen, happen_all}

module _ {J : Type 0} (E : Env J) where
  -- No receive waits.
  abbrev pub IsDeaf : Server J → Type 0
  IsDeaf s = s.receiving ≡ false

  receiving-list_msg_queue : (s : Server J) → (final (list_msg_queue E s)).receiving ≡ s.receiving
  unfolding list_msg_queue send ◌>>=◌
  receiving-list_msg_queue s = ground arith

  IsDeaf-IsTimed : IsTimed E IsDeaf
  unfolding assign_node erase_ticker erase_check send with_hosts with_ticker_num ◌>>=◌
  IsDeaf-IsTimed = record {
    assign = λ id info. keeps (λ s h. h);
    sends = λ to at msg. keeps (λ s h. h);
    uncheck = λ id. keeps (λ s h. h);
    untick = λ key. keeps (λ s h. h);
    drop = λ s k h. h;
    bumps = λ s key h. h;
    counts = keeps (λ s h. receiving-list_msg_queue s ∙ h);
  }

  happen-IsDeaf : (e : Event) → Keeps IsDeaf (happen E e)
  unfolding happen threadhandle msg_thread ◌>>=◌ if◌run◌else◌
  happen-IsDeaf (arrives err d) = keeps (λ s h. rw h refl)
  happen-IsDeaf (wakes now) =
      Keeps-bind _ _ (Keeps-timer_round E IsDeaf-IsTimed now) λ _. Keeps-pure tt
  happen-IsDeaf sleeps = Keeps-pure tt

  happen_all-IsDeaf : (es : List Event) → Keeps IsDeaf (happen_all E es)
  unfolding happen_all
  happen_all-IsDeaf [] = Keeps-pure tt
  happen_all-IsDeaf (e ∷ es) = Keeps-bind _ _ (happen-IsDeaf e) λ _. happen_all-IsDeaf es

  no_error-other : no_error ≢ other_error
  no_error-other e = cc

  -- After an update with its own ID, from another address than its own, has been handled, a node never
  -- waits for a datagram again, whatever arrives and however often its timer wakes.
  pub happen_all-own_update :
      (d : Datagram) (es : List Event) (s t u : Server J)
      → is_own_update E d s ≡ true
      → handle_receive E no_error d s ≡ done tt t
      → happen_all E es t ≡ done tt u
      → u.receiving ≡ false
  happen_all-own_update d es s t u own h r =
      let deaf : t.receiving ≡ false =
        receiving-handle_receive E no_error d s t no_error-other h ∙ ap not own in
      rw (ap final r) at (at_state (happen_all-IsDeaf es) t deaf)
