-- ===== src/Server/Idle.antt =====
-- How often a node that knows no other asks for itself again (`threadhandle` and `listMsgQueue`,
-- server.cpp).
use nat.Prelude.{
  ℕ, ◌+◌, ◌≤◌, ◌<◌, Str, str_eq_refl, to_string, some, List, [], ◌∷◌, ◌++◌, ◌≡◌, refl, ap, false,
  ◌∙◌, arith, length,
}
use nat.External.{Env}
use nat.Effect.{Outcome, done, pure, ◌>>=◌, if◌run◌else◌}
use nat.Effect.Yields.{bind_done}
use nat.Client.{send_to}
use nat.Describe.{node_ip, node_port}
use nat.Server.State.{Server, send}
use nat.Server.Messages.{detect_msg}
use nat.Server.Timer.{
  sweep_checks, sweep_tickers, tick_host, tick_hosts, list_msg_queue, timer_round,
}
use nat.Server.Threads.{threadhandle}

module _ {J : Type 0} (E : Env J) where
  -- The node list is empty, or has the node itself alone, with a text that gives an endpoint.
  pub data IsAlone (s : Server J) : Type 0 where
    nobody : s.host_list ≡ [] → IsAlone s
    itself :
        (text : Str) (item : J) (ip : Str) (port : ℕ)
        → s.host_list ≡ (s.node_id, text) ∷ []
        → E.parse text ≡ some item
        → node_ip E item ≡ some ip
        → node_port E item ≡ some port
        → IsAlone s

  -- A node that knows no other, and waits for no answer.
  pub record IsIdle (s : Server J) : Type 0 where
    pub alone : IsAlone s
    pub checks : s.f_ck_time_map ≡ []
    pub tickers : s.ticker_num ≡ []

  length-IsAlone : (s : Server J) → IsAlone s → length s.host_list ≤ 1
  length-IsAlone s (nobody e) = rw e (omega arith)
  length-IsAlone s (itself text item ip port e p f g) = rw e (omega arith)

  counted-IsIdle : (n : ℕ) (s : Server J) → IsIdle s → IsIdle (record s { count = n })
  counted-IsIdle n s h = record { alone = at_alone h.alone; checks = h.checks; tickers = h.tickers }
    where
      at_alone : IsAlone s → IsAlone (record s { count = n })
      at_alone (nobody e) = nobody e
      at_alone (itself text item ip port e p f g) = itself text item ip port e p f g

  tick_hosts-alone :
      (s : Server J) → IsAlone s → tick_hosts E s.node_id s.local_ep_info s.host_list s ≡ done tt s
  unfolding tick_hosts tick_host ◌>>=◌ if◌run◌else◌
  tick_hosts-alone s (nobody e) = rw e refl
  tick_hosts-alone s (itself text item ip port e p f g) =
      rw (e, p, f, g, str_eq_refl s.node_id) refl

  -- A round of such a node is its `listMsgQueue`.
  timer_round-idle : (now : ℕ) (s : Server J) → IsIdle s → timer_round E now s ≡ list_msg_queue E s
  unfolding timer_round sweep_checks sweep_tickers ◌>>=◌ if◌run◌else◌
  timer_round-idle now s h =
      bind_done (sweep_checks E now s.f_ck_time_map) _ s false s
        (ap (λ m. sweep_checks E now m s) h.checks)
      ∙ bind_done (sweep_tickers E s.ticker_num) _ s false s
          (ap (λ m. sweep_tickers E m s) h.tickers)
      ∙ bind_done (tick_hosts E s.node_id s.local_ep_info s.host_list) _ s tt s
          (tick_hosts-alone s h.alone)

  list_msg_queue-quiet :
      (s : Server J)
      → length s.host_list ≤ 1
      → s.count + 1 < 10
      → list_msg_queue E s ≡ done tt (record s { count = s.count + 1 })
  unfolding list_msg_queue ◌>>=◌
  list_msg_queue-quiet s alone few = ground arith

  -- The node after it has asked again.
  unfoldable pub asked : Server J → Server J
  asked s = record s {
    count = 0;
    sent =
        (send_to E s.from_cli_ip s.from_cli_port
          (E.dump (detect_msg E s.node_id s.local_ip (to_string s.local_port))) s.sent).1;
  }

  list_msg_queue-asks :
      (s : Server J) → length s.host_list ≤ 1 → s.count ≡ 9 → list_msg_queue E s ≡ done tt (asked s)
  unfolding list_msg_queue asked send ◌>>=◌
  list_msg_queue-asks s alone nine = rw nine (ground arith)

  quiet_round :
      (now : ℕ) (s : Server J)
      → IsIdle s
      → s.count + 1 < 10
      → timer_round E now s ≡ done tt (record s { count = s.count + 1 })
  quiet_round now s h few =
      timer_round-idle now s h ∙ list_msg_queue-quiet s (length-IsAlone s h.alone) few

  asking_round :
      (now : ℕ) (s : Server J) → IsIdle s → s.count ≡ 9 → timer_round E now s ≡ done tt (asked s)
  asking_round now s h nine =
      timer_round-idle now s h ∙ list_msg_queue-asks s (length-IsAlone s h.alone) nine

  threadhandle-quiet :
      (times : List ℕ) (s : Server J)
      → IsIdle s
      → s.count + length times < 10
      → threadhandle E times s ≡ done tt (record s { count = s.count + length times })
  unfolding threadhandle ◌>>=◌
  threadhandle-quiet [] s h few = ground arith
  threadhandle-quiet (now ∷ times) s h few =
      bind_done (timer_round E now) (λ x. threadhandle E times) s tt
        (record s { count = s.count + 1 }) (quiet_round now s h (omega (arith, few)))
      ∙ threadhandle-quiet times (record s { count = s.count + 1 })
          (counted-IsIdle (s.count + 1) s h) (omega (arith, few))
      ∙ ap {B = Outcome (Server J) (Unit {0})} (λ n. done tt (record s { count = n })) (omega arith)

  -- A node knows no other, its own text giving an endpoint if it is in its list, has no probe and
  -- no heartbeat that waits for an answer, and has counted fewer than ten rounds: while no datagram
  -- arrives its timer changes nothing but that count until the tenth, whenever it wakes. There it
  -- calls `sendTo` once, for a detect message to the node that it was started with, and counts from
  -- zero.
  pub threadhandle-asks :
      (times : List ℕ) (last : ℕ) (s : Server J)
      → IsIdle s
      → s.count + length times ≡ 9
      → (threadhandle E times s ≡ done tt (record s { count = s.count + length times }))
        × (threadhandle E (times ++ last ∷ []) s ≡ done tt (asked s))
  unfolding threadhandle asked ◌>>=◌
  threadhandle-asks [] last s h nine = (
    threadhandle-quiet [] s h (omega (arith, nine)),
    bind_done (timer_round E last) (λ x. pure tt) s tt (asked s)
        (asking_round last s h (omega (arith, nine))),
  )
  threadhandle-asks (now ∷ times) last s h nine =
      let one : Server J = record s { count = s.count + 1 } in
      (
        threadhandle-quiet (now ∷ times) s h (omega (arith, nine)),
        bind_done (timer_round E now) (λ x. threadhandle E (times ++ last ∷ [])) s tt one
              (quiet_round now s h (omega (arith, nine)))
            ∙ (threadhandle-asks times last one (counted-IsIdle (s.count + 1) s h)
                (omega (arith, nine))).1,
      )
