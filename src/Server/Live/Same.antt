-- ===== src/Server/Live/Same.antt =====
-- The loops of a timer round do what Timer says, on a node whose maps are in order.
use nat.Prelude.{ℕ, Str, str_eq, false, ◌||◌, [], ◌∷◌, ◌≡◌, refl, ◌∙◌, inl, inr, Option-cases}
use nat.StdMap.{StdMap}
use nat.External.{Env}
use nat.Effect.{M, pure, require, ◌>>=◌, if◌run◌else◌}
use nat.Effect.Iterate.{each, >>=_congr, >>=-pure_tt}
use nat.Describe.{node_ip, node_port}
use nat.Server.State.{Server, send}
use nat.Server.Route.{notify}
use nat.Server.Timer.{
  check_entry, sweep_checks, prune_hosts, expire_ticker, sweep_tickers, tick_host, tick_hosts,
}
use nat.Server.Live.{both, prune_host}

-- One turn of a loop without results, and the rest of it.
each_turn :
    {S V : Type 0} (over : S → StdMap V) (body : Str → V → M S (Unit {0})) (rest : M S (Unit {0}))
    (k : Str) (v : V) (es : StdMap V) (s : S)
    → ((t : S) → each over both tt body es t ≡ rest t)
    → each over both tt body ((k, v) ∷ es) s ≡ (body k v >>= λ one. rest) s
unfolding each
each_turn over body rest k v es s h =
    >>=_congr (body k v) (body k v) _ (λ one. rest) s refl
      (λ one t e. >>=-pure_tt (each over both tt body es) t ∙ h t)

module _ {J : Type 0} (E : Env J) where
  pub each-prune_hosts :
      (key : Str) (hosts : StdMap Str) (s : Server J)
      → each (λ r. r.host_list) both tt (prune_host E key) hosts s ≡ prune_hosts E key hosts s
  unfolding each prune_hosts prune_host ◌>>=◌
  each-prune_hosts key [] s = refl
  each-prune_hosts key ((k, v) ∷ hosts) s =
      each_turn (λ r. r.host_list) (prune_host E key) (prune_hosts E key hosts) k v hosts s
        (each-prune_hosts key hosts)
      ∙ (elim (Option-cases (E.parse v)) [
        | inl e ↦ rw e refl
        | inr (item, e) ↦ elim (Option-cases (node_ip E item)) [
          | inl f ↦ rw (e, f) refl
          | inr (ip, f) ↦ elim (Option-cases (node_port E item)) [
            | inl g ↦ rw (e, f, g) refl
            | inr (port, g) ↦ rw (e, f, g) refl
          ]
        ]
      ])

  pub each-sweep_tickers :
      (tickers : StdMap ℕ) (s : Server J)
      → each (λ r. r.ticker_num) ◌||◌ false (expire_ticker E) tickers s ≡ sweep_tickers E tickers s
  unfolding each sweep_tickers
  each-sweep_tickers [] s = refl
  each-sweep_tickers ((key, n) ∷ tickers) s =
      >>=_congr (expire_ticker E key n) (expire_ticker E key n) _ _ s refl
        (λ one t h. >>=_congr _ _ _ _ t (each-sweep_tickers tickers t) (λ more u q. refl))

  pub each-sweep_checks :
      (now : ℕ) (checks : StdMap Str) (s : Server J)
      → each (λ r. r.f_ck_time_map) ◌||◌ false (check_entry E now) checks s
        ≡ sweep_checks E now checks s
  unfolding each sweep_checks
  each-sweep_checks now [] s = refl
  each-sweep_checks now ((id, key) ∷ checks) s =
      >>=_congr (check_entry E now id key) (check_entry E now id key) _ _ s refl
        (λ one t h. >>=_congr _ _ _ _ t (each-sweep_checks now checks t) (λ more u q. refl))

  -- With the node's ID and description as they are at the start.
  unfoldable pub tick_body : Str → J → Str → Str → M (Server J) (Unit {0})
  tick_body own info k v = do item ← require (E.parse v); tick_host E own info k item

  pub each-tick_hosts :
      (own : Str) (info : J) (hosts : StdMap Str) (s : Server J)
      → each (λ r. r.host_list) both tt (tick_body own info) hosts s ≡ tick_hosts E own info hosts s
  unfolding each tick_hosts tick_body ◌>>=◌
  each-tick_hosts own info [] s = refl
  each-tick_hosts own info ((k, v) ∷ hosts) s =
      each_turn (λ r. r.host_list) (tick_body own info) (tick_hosts E own info hosts) k v hosts s
        (each-tick_hosts own info hosts)
      ∙ (elim (Option-cases (E.parse v)) [ inl e ↦ rw e refl | inr (item, e) ↦ rw e refl ])

  unfoldable pub notify_body : J → Str → Str → Str → M (Server J) (Unit {0})
  notify_body msg own k v = do
    item ← require (E.parse v)
    if str_eq k own
        run pure tt
        else do ip ← require (node_ip E item); port ← require (node_port E item); send E ip port msg

  pub each-notify :
      (msg : J) (own : Str) (hosts : StdMap Str) (s : Server J)
      → each (λ r. r.host_list) both tt (notify_body msg own) hosts s ≡ notify E msg own hosts s
  unfolding each notify notify_body ◌>>=◌
  each-notify msg own [] s = refl
  each-notify msg own ((k, v) ∷ hosts) s =
      each_turn (λ r. r.host_list) (notify_body msg own) (notify E msg own hosts) k v hosts s
        (each-notify msg own hosts)
      ∙ (elim (Option-cases (E.parse v)) [ inl e ↦ rw e refl | inr (item, e) ↦ rw e refl ])
