-- ===== src/Server/Probes.antt =====
-- The entries of the time map (`fCkTimeMap`) and the timer that reads them (server.cpp).
use nat.Prelude.{
  ℕ, leb, Str, codes, str_eq, int_max, Option, none, some, Bool, false, ◌||◌, [], ◌∷◌, ◌≡◌, refl,
  ◌∙◌, arith, Bool-cases, inl, inr, sym, subst,
}
use nat.StdMap.{StdMap}
use nat.StdMap.Values.{AllValues, insert-AllValues, erase-AllValues}
use nat.External.{Env, IsPlain}
use nat.Effect.{M, Fault, Outcome, exception, final, fails, pure, gets, ◌>>=◌, ◌>>◌, if◌run◌else◌}
use nat.Effect.Keeps.{keeps}
use nat.Effect.Throws.{Throws, throws, at_fault, Throws-pure, Throws-if, Throws-bind, throws_rules}
use nat.Server.State.{
  Server, with_hosts, with_ticker_num, add_node, assign_node, erase_ticker, add_check, erase_check,
  send, gen_uuid,
}
use nat.Server.Detect.{check_key}
use nat.Server.CheckKey.{check_entry-check_key, check_entry-overflow, head_of}
use nat.Server.Route.{update_route_info}
use nat.Server.Filtering.{mark_filtering}
use nat.Server.Stable.{IsStable, Keeps-handle_receive}
use nat.Server.TimerStable.{IsTimed, Keeps-timer_round}
use nat.Server.Receive.{Datagram}
use nat.Server.Timer.{
  filter_host, expire_check, check_entry, sweep_checks, sweep_tickers, tick_hosts, list_msg_queue,
  timer_round, is_late,
}
use nat.Server.RoundThrows.{
  Throws-update_route_info, Throws-sweep_tickers, Throws-tick_hosts, Throws-list_msg_queue,
}
use nat.Server.Invariant.{Reach, Reach-keeps}
use nat.Server.Start.{start}

-- The key of a probe.
pub record IsProbe (key : Str) : Type 0 where
  pub now : ℕ
  pub ip : Str
  pub port : ℕ
  pub node : Str
  pub plain : IsPlain ip
  pub shape : key ≡ check_key now ip port node

abbrev pub Probes : StdMap Str → Type 0
Probes = AllValues IsProbe

abbrev pub AllProbes : {J : Type 0} → Server J → Type 0
AllProbes s = Probes s.f_ck_time_map

-- A datagram from an address without an underscore.
abbrev pub IsFromPlain : Datagram → Type 0
IsFromPlain d = IsPlain d.ip

module _ {J : Type 0} (E : Env J) where
  AllProbes-IsStable :
      (now : ℕ) (ip : Str) (port : ℕ) → IsPlain ip → IsStable E AllProbes now ip port
  unfolding add_node assign_node erase_ticker add_check erase_check send gen_uuid ◌>>=◌
  AllProbes-IsStable now ip port plain = record {
    add = λ id info. keeps (λ s h. h);
    assign = λ id info. keeps (λ s h. h);
    sends = λ to at msg. keeps (λ s h. h);
    check = λ id node. keeps (λ s h.
        insert-AllValues IsProbe id _ s.f_ck_time_map
          (record { now = now; ip = ip; port = port; node = node; plain = plain; shape = refl }) h);
    uncheck = λ id. keeps (λ s h. erase-AllValues IsProbe id s.f_ck_time_map h);
    untick = λ key. keeps (λ s h. h);
    draw = keeps (λ s h. h);
    info = λ s j h. h;
    publics = λ s ns h. h;
  }

  f_ck_time_map-list_msg_queue :
      (s : Server J) → (final (list_msg_queue E s)).f_ck_time_map ≡ s.f_ck_time_map
  unfolding list_msg_queue send ◌>>=◌
  f_ck_time_map-list_msg_queue s = ground arith

  AllProbes-IsTimed : IsTimed E AllProbes
  unfolding with_hosts with_ticker_num
  AllProbes-IsTimed = record {
    assign = st.assign;
    sends = st.sends;
    uncheck = st.uncheck;
    untick = st.untick;
    drop = λ s k h. h;
    bumps = λ s key h. h;
    counts = keeps (λ s h. subst Probes (sym (f_ck_time_map-list_msg_queue s)) h);
  }
    where
      st : IsStable E AllProbes 0 [] 0
      st = AllProbes-IsStable 0 [] 0 tt

  start-AllProbes :
      (rip : Str) (rport port : ℕ) (flag : Bool) (ip : Str)
      → AllProbes (start E rip rport port flag ip)
  unfolding start
  start-AllProbes rip rport port flag ip = tt

  fault_of :
      {A : Type 0} {o : Outcome (Server J) A} {f g : Fault} {s t : Server J}
      → o ≡ fails g s
      → o ≡ fails f t
      → f ≡ g
  fault_of a b = ground (arith, sym a ∙ b)

  Throws-mark_filtering :
      (filtering node text : Str) → Throws (mark_filtering E filtering node text)
  unfolding mark_filtering assign_node
  Throws-mark_filtering filtering node text = search throws_rules depth 12

  Throws-filter_host : (host : Str) (o : Option Str) → Throws (filter_host E host o)
  unfolding filter_host
  Throws-filter_host host none = search throws_rules
  Throws-filter_host host (some text) = Throws-mark_filtering _ host text

  Throws-expire_check : (id host : Str) → Throws (expire_check E id (codes "filtering") host)
  unfolding expire_check erase_check str_eq if◌run◌else◌
  Throws-expire_check id host = search (throws_rules, Throws-filter_host) depth 12

  pub Throws-check_entry :
      (now : ℕ) (id key : Str) → IsProbe key → Throws (check_entry E now id key)
  unfolding if◌run◌else◌ is_late
  Throws-check_entry now id key p =
      let (host, h) = head_of (E.split p.node) (E.split-ne-nil p.node) in
      rw p.shape (
        throws λ s f t e. elim (Bool-cases (leb p.now int_max)) [
          | inl early ↦
              at_fault
                (Throws-if (is_late now (false, p.now)) _ _ (Throws-expire_check id host)
                  (Throws-pure false))
                s f t
                (sym (
                    check_entry-check_key E now id p.now p.ip p.port p.node host (ground arith)
                      p.plain h s)
                  ∙ e)
          | inr late ↦
              fault_of
                (check_entry-overflow E now id p.now p.ip p.port p.node (ground arith) p.plain s) e
        ])

  pub Throws-sweep_checks :
      (now : ℕ) (checks : StdMap Str) → Probes checks → Throws (sweep_checks E now checks)
  unfolding sweep_checks
  Throws-sweep_checks now [] p = search throws_rules
  Throws-sweep_checks now ((id, key) ∷ entries) p =
      Throws-bind _ _ (Throws-check_entry now id key p.0)
        λ one. Throws-bind _ _ (Throws-sweep_checks now entries p.1) λ more. Throws-pure _

  -- After the first read, a round is code whose first loop runs over the given entries.
  unfoldable pub after_checks : (now : ℕ) → StdMap Str → M (Server J) (Unit {0})
  after_checks now checks = do
    late ← sweep_checks E now checks
    tickers ← gets (λ s. s.ticker_num)
    lost ← sweep_tickers E tickers
    own ← gets (λ s. s.node_id)
    info ← gets (λ s. s.local_ep_info)
    hosts ← gets (λ s. s.host_list)
    tick_hosts E own info hosts
    if late || lost run update_route_info E else pure tt
    list_msg_queue E

  pub timer_round-after_checks :
      (now : ℕ) (s : Server J) → timer_round E now s ≡ after_checks now s.f_ck_time_map s
  unfolding timer_round after_checks ◌>>=◌
  timer_round-after_checks now s = refl

  Throws-after_checks :
      (now : ℕ) (checks : StdMap Str) → Probes checks → Throws (after_checks now checks)
  unfolding after_checks
  Throws-after_checks now checks p = Throws-bind _ _ (Throws-sweep_checks now checks p) λ late.
      search
        (
          throws_rules, Throws-sweep_tickers, Throws-tick_hosts, Throws-update_route_info,
          Throws-list_msg_queue,
        )
        depth 16

  pub Reach-AllProbes :
      (rip : Str) (rport port : ℕ) (flag : Bool) (ip : Str) {s : Server J}
      → Reach E IsFromPlain (start E rip rport port flag ip) s
      → AllProbes s
  Reach-AllProbes rip rport port flag ip r =
      Reach-keeps E {P = AllProbes}
        (λ err d ok.
          Keeps-handle_receive E d (AllProbes-IsStable d.now d.ip d.port ok) err (λ s b h. h))
        (λ now. Keeps-timer_round E AllProbes-IsTimed now) r
        (start-AllProbes rip rport port flag ip)

  -- After any datagrams from addresses without an underscore, at whatever times, and any rounds of the
  -- timer, a further round never loops for ever and never reads outside a vector: it fails by an
  -- exception, if at all.
  pub timer_round-throws :
      (rip : Str) (rport port : ℕ) (flag : Bool) (ip : Str) {s t : Server J} (now : ℕ) (f : Fault)
      → Reach E IsFromPlain (start E rip rport port flag ip) s
      → timer_round E now s ≡ fails f t
      → f ≡ exception
  timer_round-throws rip rport port flag ip {s} {t} now f r e =
      at_fault (Throws-after_checks now s.f_ck_time_map (Reach-AllProbes rip rport port flag ip r))
        s f t (sym (timer_round-after_checks now s) ∙ e)
