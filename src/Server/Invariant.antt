-- ===== src/Server/Invariant.antt =====
-- What holds of the node's state after any datagrams and any rounds of the timer.
use nat.Prelude.{ℕ, ◌<◌, Str, Bool, [], arith, ◌≡◌, ap, Option-cases, inl, inr}
use nat.StdMap.{StdMap, find, IsSorted, insert-IsSorted, assign-IsSorted, erase-IsSorted}
use nat.External.{Env}
use nat.Effect.{M, done, final, ◌>>=◌}
use nat.Effect.Keeps.{Keeps, keeps, at_state}
use nat.Server.State.{
  Server, with_hosts, with_ticker_num, add_node, assign_node, erase_ticker, add_check, erase_check,
  send, gen_uuid,
}
use nat.Server.Stable.{IsStable, Keeps-handle_receive}
use nat.Server.TimerStable.{IsTimed, Keeps-timer_round}
use nat.Server.Receive.{Datagram, RecvError, handle_receive}
use nat.Server.Timer.{bump, list_msg_queue, timer_round}
use nat.Server.Start.{start}

-- The three maps are in order, so that no key stands twice in one, and the count of idle rounds is
-- below ten.
pub record IsOrdered {J : Type 0} (s : Server J) : Type 0 where
  pub hosts : IsSorted s.host_list
  pub checks : IsSorted s.f_ck_time_map
  pub tickers : IsSorted s.ticker_num
  pub idle : s.count < 10

bump-IsSorted : (key : Str) (m : StdMap ℕ) → IsSorted m → IsSorted (bump key m)
unfolding bump
bump-IsSorted key m h = elim (Option-cases (find key m)) [
  | inl e ↦ rw (e, bump) (insert-IsSorted key 1 m h)
  | inr (n, e) ↦ rw (e, bump) (assign-IsSorted key _ m h)
]

module _ {J : Type 0} (E : Env J) where
  module _ (s : Server J) (h : IsOrdered s) where
    list_msg_queue-IsOrdered : IsOrdered (final (list_msg_queue E s))
    unfolding list_msg_queue send ◌>>=◌
    list_msg_queue-IsOrdered = record {
      hosts = ground (arith, h.hosts);
      checks = ground (arith, h.checks);
      tickers = ground (arith, h.tickers);
      idle = ground (arith, h.idle);
    }

  IsOrdered-IsStable : (now : ℕ) (ip : Str) (port : ℕ) → IsStable E IsOrdered now ip port
  unfolding add_node assign_node erase_ticker add_check erase_check send gen_uuid ◌>>=◌
  IsOrdered-IsStable now ip port = record {
    add = λ id info. keeps (λ s h. record {
      hosts = insert-IsSorted id info s.host_list h.hosts;
      checks = h.checks;
      tickers = h.tickers;
      idle = h.idle;
    });
    assign = λ id info. keeps (λ s h. record {
      hosts = assign-IsSorted id info s.host_list h.hosts;
      checks = h.checks;
      tickers = h.tickers;
      idle = h.idle;
    });
    sends = λ to at msg.
        keeps (λ s h. record {
          hosts = h.hosts;
          checks = h.checks;
          tickers = h.tickers;
          idle = h.idle;
        });
    check = λ id node. keeps (λ s h. record {
      hosts = h.hosts;
      checks = insert-IsSorted id _ s.f_ck_time_map h.checks;
      tickers = h.tickers;
      idle = h.idle;
    });
    uncheck = λ id. keeps (λ s h. record {
      hosts = h.hosts;
      checks = erase-IsSorted id s.f_ck_time_map h.checks;
      tickers = h.tickers;
      idle = h.idle;
    });
    untick = λ key. keeps (λ s h. record {
      hosts = h.hosts;
      checks = h.checks;
      tickers = erase-IsSorted key s.ticker_num h.tickers;
      idle = h.idle;
    });
    draw =
        keeps (λ s h. record {
          hosts = h.hosts;
          checks = h.checks;
          tickers = h.tickers;
          idle = h.idle;
        });
    info =
        λ s j h. record { hosts = h.hosts; checks = h.checks; tickers = h.tickers; idle = h.idle };
    publics =
        λ s ns h. record { hosts = h.hosts; checks = h.checks; tickers = h.tickers; idle = h.idle };
  }

  pub IsOrdered-IsTimed : IsTimed E IsOrdered
  unfolding with_hosts with_ticker_num
  IsOrdered-IsTimed = record {
    assign = st.assign;
    sends = st.sends;
    uncheck = st.uncheck;
    untick = st.untick;
    drop = λ s k h. record {
      hosts = erase-IsSorted k s.host_list h.hosts;
      checks = h.checks;
      tickers = h.tickers;
      idle = h.idle;
    };
    bumps = λ s key h. record {
      hosts = h.hosts;
      checks = h.checks;
      tickers = bump-IsSorted key s.ticker_num h.tickers;
      idle = h.idle;
    };
    counts = keeps list_msg_queue-IsOrdered;
  }
    where
      st : IsStable E IsOrdered 0 [] 0
      st = IsOrdered-IsStable 0 [] 0

  handle_receive-IsOrdered :
      (err : RecvError) (d : Datagram) → Keeps IsOrdered (handle_receive E err d)
  handle_receive-IsOrdered err d =
      Keeps-handle_receive E d (IsOrdered-IsStable d.now d.ip d.port) err
        λ s b h. record { hosts = h.hosts; checks = h.checks; tickers = h.tickers; idle = h.idle }

  timer_round-IsOrdered : (now : ℕ) → Keeps IsOrdered (timer_round E now)
  timer_round-IsOrdered now = Keeps-timer_round E IsOrdered-IsTimed now

  Keeps-done :
      {P : Server J → Type 0} {m : M (Server J) (Unit {0})} {s t : Server J}
      → Keeps P m
      → m s ≡ done tt t
      → P s
      → P t
  Keeps-done {P} {s = s} k e h = rw (ap final e) at (at_state k s h)

  -- A run of the node: datagrams of a kind, and rounds of the timer between them.
  pub data Reach (Kind : Datagram → Type 0) (s : Server J) : Server J → Type 0 where
    here : Reach Kind s s
    receives :
        {t u : Server J} (err : RecvError) (d : Datagram)
        → Kind d
        → Reach Kind s t
        → handle_receive E err d t ≡ done tt u
        → Reach Kind s u
    ticks :
        {t u : Server J} (now : ℕ)
        → Reach Kind s t
        → timer_round E now t ≡ done tt u
        → Reach Kind s u

  -- What each datagram of the kind and each round keep holds after a run.
  pub Reach-keeps :
      {P : Server J → Type 0} {Kind : Datagram → Type 0}
      → ((err : RecvError) (d : Datagram) → Kind d → Keeps P (handle_receive E err d))
      → ((now : ℕ) → Keeps P (timer_round E now))
      → {s t : Server J} → Reach Kind s t
      → P s
      → P t
  Reach-keeps kr kt here h = h
  Reach-keeps kr kt (receives err d ok r e) h = Keeps-done (kr err d ok) e (Reach-keeps kr kt r h)
  Reach-keeps kr kt (ticks now r e) h = Keeps-done (kt now) e (Reach-keeps kr kt r h)

  start-IsOrdered :
      (rip : Str) (rport port : ℕ) (flag : Bool) (ip : Str)
      → IsOrdered (start E rip rport port flag ip)
  unfolding start
  start-IsOrdered rip rport port flag ip = record {
    hosts = tt;
    checks = tt;
    tickers = tt;
    idle = omega arith;
  }

  -- Whatever datagrams arrive and however the timer's rounds fall between them, from its start a node
  -- keeps its three maps in order with no key twice, and the count of idle rounds below ten.
  pub Reach-start-IsOrdered :
      (rip : Str) (rport port : ℕ) (flag : Bool) (ip : Str) {t : Server J}
      → Reach (λ d. Unit {0}) (start E rip rport port flag ip) t
      → IsOrdered t
  Reach-start-IsOrdered rip rport port flag ip r =
      Reach-keeps (λ err d ok. handle_receive-IsOrdered err d) timer_round-IsOrdered r
        (start-IsOrdered rip rport port flag ip)
