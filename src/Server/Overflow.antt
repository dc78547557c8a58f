-- ===== src/Server/Overflow.antt =====
-- What the timer (server.cpp) makes of a filtering probe whose time does not fit an `int`.
use nat.Prelude.{
  ◌||◌, sym, ℕ, ◌<◌, ◌+◌, Str, str_eq_refl, ap, int_max, some, Bool, false, [], ◌∷◌, ◌≡◌, refl, ◌∙◌,
}
use nat.StdMap.{StdMap, find, has, insert, find-insert}
use nat.StdMap.Values.{insert-AllValues}
use nat.External.{Env, IsPlain}
use nat.Effect.{exception, done, fails, ◌>>=◌}
use nat.Effect.Raises.{Raises, EachThrows, each-Raises}
use nat.Server.Live.Same.{each-sweep_checks}
use nat.Server.State.{Server}
use nat.Server.Detect.{check_key, start_check}
use nat.Server.CheckKey.{check_entry-overflow}
use nat.Server.ProbeIds.{probing, start_check-probing}
use nat.Server.Probes.{
  IsProbe, Probes, IsFromPlain, Throws-check_entry, after_checks, timer_round-after_checks,
  Reach-AllProbes,
}
use nat.Server.Timer.{check_entry, sweep_checks, timer_round}
use nat.Server.Invariant.{Reach}
use nat.Server.Start.{start}

module _ {J : Type 0} (E : Env J) where
  Probes-EachThrows :
      (later : ℕ) (checks : StdMap Str)
      → Probes checks
      → EachThrows (λ r. r.f_ck_time_map) ◌||◌ false (check_entry E later) checks
  Probes-EachThrows later [] p = tt
  Probes-EachThrows later ((id, key) ∷ checks) p =
      (Throws-check_entry E later id key p.0, Probes-EachThrows later checks p.1)

  sweep_checks-overflow :
      (later : ℕ) (id : Str) (now : ℕ) (ip : Str) (port : ℕ) (node : Str) (checks : StdMap Str)
      → int_max < now
      → IsPlain ip
      → Probes checks
      → find id checks ≡ some (check_key now ip port node)
      → (s : Server J) → Raises (sweep_checks E later checks) s
  sweep_checks-overflow later id now ip port node checks big plain p h s =
      let (u, e) =
        each-Raises (λ r. r.f_ck_time_map) ◌||◌ false (check_entry E later) id _ checks
          (Probes-EachThrows later checks p) h
          (λ r. (r, check_entry-overflow E later id now ip port node big plain r)) s in
      (u, sym (each-sweep_checks E later checks s) ∙ e)

  -- A node, its datagrams from addresses without an underscore, starts a filtering probe after the last
  -- second that fits an `int`, and files it under an ID that is not in use: the next round of the timer
  -- throws, whenever it is.
  pub timer_round-overflow :
      (rip : Str) (rport sport : ℕ) (flag : Bool) (sip : Str) (s t : Server J) (now : ℕ) (ip : Str)
      (port : ℕ) (node : Str) (later : ℕ)
      → Reach E IsFromPlain (start E rip rport sport flag sip) s
      → IsPlain ip
      → int_max < now
      → has (E.uuid (s.drawn + 1)) s.f_ck_time_map ≡ false
      → start_check E now ip port node s ≡ done tt t
      → (u : Server J) × (timer_round E later t ≡ fails exception u)
  unfolding probing after_checks ◌>>=◌
  timer_round-overflow rip rport sport flag sip s t now ip port node later r plain big fresh h =
      let (near_ip, near_port, e) = start_check-probing E now ip port node s t h in
      let id = E.uuid (s.drawn + 1) in
      let checks = insert id (check_key now ip port node) s.f_ck_time_map in
      let probe : IsProbe (check_key now ip port node) = record {
        now = now;
        ip = ip;
        port = port;
        node = node;
        plain = plain;
        shape = refl;
      } in
      let (u, f) =
        sweep_checks-overflow later id now ip port node checks big plain
          (insert-AllValues IsProbe id _ s.f_ck_time_map probe
            (Reach-AllProbes E rip rport sport flag sip r))
          (find-insert id id _ s.f_ck_time_map ∙ rw (str_eq_refl id, fresh) refl) t in
      (
        u,
        timer_round-after_checks E later t
            ∙ ap (λ r. after_checks E later r.f_ck_time_map t) e
            ∙ rw f refl,
      )
