-- ===== src/Server/Unreadable.antt =====
-- One "ticker" that stops the timer (server.cpp): the node stores the description in it unread, and
-- the next round of the timer reads an endpoint of it.
use nat.Prelude.{
  ℕ, Str, leb, Bool, false, ◌||◌, [], ◌∷◌, ◌≡◌, refl, sym, ◌∙◌, subst, arith, Bool-cases, inl, inr,
}
use nat.StdMap.{StdMap}
use nat.External.{Env}
use nat.Effect.{M, done, ◌>>=◌, if◌run◌else◌}
use nat.Effect.Throws.{Throws, throws_rules}
use nat.Effect.Raises.{Raises, Raises-bind, Raises-first, Raises-kept, EachThrows, each-Raises}
use nat.Effect.Yields.{>>=-eq-done, pure-eq-done}
use nat.Server.State.{Server}
use nat.Server.Timer.{
  package_num, prune_hosts, expire_ticker, sweep_tickers, sweep_checks, tick_host, tick_hosts,
  timer_round,
}
use nat.Server.Live.{both, prune_host}
use nat.Server.Live.Same.{each-prune_hosts, tick_body, each-tick_hosts}
use nat.Server.RoundThrows.{Throws-send, Throws-sweep_tickers}
use nat.Server.Lacking.{IsLacking, node_ip-missing, Keeps-sweep_checks}
use nat.Server.Probes.{AllProbes, Throws-sweep_checks, after_checks, timer_round-after_checks}

module _ {J : Type 0} (E : Env J) where
  Throws-prune_host : (key k v : Str) → Throws (prune_host E key k v)
  unfolding prune_host
  Throws-prune_host key k v = search throws_rules depth 12

  Throws-tick_body : (own : Str) (info : J) (k v : Str) → Throws (tick_body E own info k v)
  unfolding tick_body tick_host
  Throws-tick_body own info k v = search (throws_rules, Throws-send) depth 12

  Throws-each :
      (body : Str → Str → M (Server J) (Unit {0}))
      → ((k v : Str) → Throws (body k v))
      → (hosts : StdMap Str) → EachThrows (λ r. r.host_list) both tt body hosts
  Throws-each body h [] = tt
  Throws-each body h ((k, v) ∷ hosts) = (h k v, Throws-each body h hosts)

  module _ (node : Str) (s : Server J) (l : IsLacking E node s) where
    open l use {fields, known, missing}

    prune_hosts-lacking : (key : Str) (r : Server J) → Raises (prune_hosts E key s.host_list) r
    unfolding prune_host ◌>>=◌
    prune_hosts-lacking key r =
        let (u, e) =
          each-Raises (λ r. r.host_list) both tt (prune_host E key) node _ s.host_list
            (Throws-each (prune_host E key) (Throws-prune_host key) s.host_list) known
            (λ t. (t, rw (E.parse-dump (E.obj fields), node_ip-missing E fields missing) refl)) r in
        (u, sym (each-prune_hosts E key s.host_list r) ∙ e)

    tick_hosts-lacking :
        (own : Str) (info : J) (r : Server J) → Raises (tick_hosts E own info s.host_list) r
    unfolding tick_body tick_host ◌>>=◌
    tick_hosts-lacking own info r =
        let (u, e) =
          each-Raises (λ r. r.host_list) both tt (tick_body E own info) node _ s.host_list
            (Throws-each (tick_body E own info) (Throws-tick_body own info) s.host_list) known
            (λ t. (t, rw (E.parse-dump (E.obj fields), node_ip-missing E fields missing) refl)) r in
        (u, sym (each-tick_hosts E own info s.host_list r) ∙ e)

    -- Where the removal of a key returns, it has changed nothing.
    expire_ticker-lacking :
        (key : Str) (n : ℕ) (one : Bool) (t : Server J)
        → expire_ticker E key n s ≡ done one t
        → s ≡ t
    unfolding expire_ticker ◌>>=◌ if◌run◌else◌
    expire_ticker-lacking key n one t h =
        let (u, e) = prune_hosts-lacking key s in
        elim (Bool-cases (leb package_num n)) [
          | inl late ↦ absurd (ground (arith, rw (late, e) at h))
          | inr early ↦ (pure-eq-done false s one t (rw early at h)).1
        ]

    sweep_tickers-lacking :
        (tickers : StdMap ℕ) (lost : Bool) (t : Server J)
        → sweep_tickers E tickers s ≡ done lost t
        → s ≡ t
    unfolding sweep_tickers
    sweep_tickers-lacking [] lost t h = (pure-eq-done false s lost t h).1
    sweep_tickers-lacking ((key, n) ∷ tickers) lost t h =
        let (one, r, e, h1) = >>=-eq-done _ _ s lost t h in
        let (more, v, f, h2) = >>=-eq-done _ _ r lost t h1 in
        let back = sym (expire_ticker-lacking key n one r e) in
        sweep_tickers-lacking tickers more v
          (subst (λ x. sweep_tickers E tickers x ≡ done more v) back f)
        ∙ (pure-eq-done (one || more) v lost t h2).1

  -- The tickers of a round, with what comes after them.
  pub timer_round-lacking :
      (node : Str) (now : ℕ) (s : Server J)
      → AllProbes s
      → IsLacking E node s
      → Raises (timer_round E now) s
  unfolding after_checks ◌>>=◌
  timer_round-lacking node now s probes l =
      let (u, e) =
        Raises-kept (sweep_checks E now s.f_ck_time_map) _ s (IsLacking E node) l
          (Keeps-sweep_checks E node now s.f_ck_time_map)
          (Throws-sweep_checks E now s.f_ck_time_map probes)
          (λ late t lt.
            Raises-bind (sweep_tickers E t.ticker_num) _ t (Throws-sweep_tickers E t.ticker_num)
              λ lost v e. Raises-first (tick_hosts E v.node_id v.local_ep_info v.host_list) _ v (
                tick_hosts-lacking node v
                  (subst (IsLacking E node) (sweep_tickers-lacking node t lt t.ticker_num lost v e)
                    lt)
                  v.node_id v.local_ep_info v)) in
      (u, timer_round-after_checks E now s ∙ e)
