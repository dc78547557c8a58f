-- ===== src/Server/Interleave/Safe.antt =====
-- A node that gets only "detect" messages (server.cpp), its timer's turns and the calls of the handler in
-- any order: no turn fails.
use nat.Prelude.{
  ℕ, Str, str_eq, leb, none, some, true, ◌||◌, ◌≡◌, refl, sym, subst, Bool-cases, inl, inr,
}
use nat.StdMap.{StdMap, erase}
use nat.StdMap.Values.{find-AllValues, erase-AllValues}
use nat.StdMap.Iterator.{IsAt, first_key, next_key, first_key-IsAt, next_key-IsAt, next_key-erase}
use nat.External.{Env}
use nat.Effect.{M, done, pure, require, modify, ◌>>=◌, if◌run◌else◌}
use nat.Effect.Keeps.{Keeps, keeps, keeps_rules, after}
use nat.Server.State.{Server, with_hosts, with_ticker_num, erase_ticker, send}
use nat.Describe.{node_ip, node_port}
use nat.Server.Messages.{update_msg}
use nat.Server.Ticker.{ticker_key}
use nat.Server.TimerStable.{Keeps-tick_host}
use nat.Server.Timer.{package_num}
use nat.Server.Live.{tick_live, notify_live}
use nat.Server.Readable.{IsReadable, IsEarly, IsHealthy}
use nat.Server.Steady.{check_entry-Fine}
use nat.Server.SteadyRounds.{parsed-text, tick_host-Fine, tell_host-Fine, list_msg_queue-Fine}
use nat.Server.Interleave.{
  Place, asleep, checking, counting, pruning, ticking, telling, listing, Timer, at_place, turn,
  check_turn, count_turn, prune_turn, drop_turn, tick_turn, tell_turn,
}
use nat.Server.Interleave.Standing.{Stands}

module _ {J : Type 0} (E : Env J) where
  -- The node is healthy, and the iterators are at entries that are there.
  pub record IsSafe (t : Timer J) (s : Server J) : Type 0 where
    pub healthy : IsHealthy E s
    pub stands : Stands t.place s

  abbrev pub Goes : M (Server J) (Timer J) → Server J → Type 0
  Goes m s = (t : Timer J) × (u : Server J) × (m s ≡ done t u) × IsSafe t u

  check_turn-Goes :
      (id : Str) (t : Timer J) (s : Server J)
      → IsHealthy E s
      → IsAt (some id) s.f_ck_time_map
      → Goes (check_turn E id t) s
  unfolding check_turn ◌>>=◌
  check_turn-Goes id t s h (key, e) =
      let early = find-AllValues (IsEarly E) id key s.f_ck_time_map h.probes e in
      let (late, u, f, g) = check_entry-Fine E t.now id key s early h in
      (
        record t {
          need_notify = t.need_notify || late;
          place = checking (next_key id u.f_ck_time_map);
        },
        u,
        rw (e, f) refl,
        record { healthy = g; stands = next_key-IsAt id u.f_ck_time_map },
      )

  count_turn-Goes :
      (key : Str) (t : Timer J) (s : Server J)
      → IsHealthy E s
      → IsAt (some key) s.ticker_num
      → Goes (count_turn E key t) s
  unfolding count_turn ◌>>=◌ if◌run◌else◌
  count_turn-Goes key t s h (n, e) = elim (Bool-cases (leb package_num n)) [
    | inl lost ↦ (
      record t { need_notify = true; place = pruning key (first_key s.host_list) },
      s,
      rw (e, lost) refl,
      record { healthy = h; stands = ((n, e), first_key-IsAt s.host_list) },
    )
    | inr here ↦ (
      record t { place = counting (next_key key s.ticker_num) },
      s,
      rw (e, here) refl,
      record { healthy = h; stands = next_key-IsAt key s.ticker_num },
    )
  ]

  prune_turn-Goes :
      (key k : Str) (t : Timer J) (s : Server J)
      → IsHealthy E s
      → IsAt (some key) s.ticker_num
      → IsAt (some k) s.host_list
      → Goes (prune_turn E key k t) s
  unfolding prune_turn with_hosts ◌>>=◌ if◌run◌else◌
  prune_turn-Goes key k t s h (n, e) (v, f) =
      let r = find-AllValues (IsReadable E) k v s.host_list h.hosts f in
      elim (Bool-cases (str_eq (ticker_key r.ip r.port) key)) [
        | inl same ↦ (
          record t { place = pruning key (next_key k s.host_list) },
          with_hosts (erase k s.host_list) s,
          rw (f, parsed-text E v r, r.ip_there, r.port_there, e, same) refl,
          record {
            healthy = record {
              hosts = erase-AllValues (IsReadable E) k s.host_list h.hosts;
              probes = h.probes;
            };
            stands = ((n, e), next_key-erase k s.host_list);
          },
        )
        | inr other ↦ (
          record t { place = pruning key (next_key k s.host_list) },
          s,
          rw (f, parsed-text E v r, r.ip_there, r.port_there, e, other) refl,
          record { healthy = h; stands = ((n, e), next_key-IsAt k s.host_list) },
        )
      ]

  drop_turn-Goes :
      (key : Str) (t : Timer J) (s : Server J)
      → IsHealthy E s
      → IsAt (some key) s.ticker_num
      → Goes (drop_turn E key t) s
  unfolding drop_turn erase_ticker with_ticker_num ◌>>=◌
  drop_turn-Goes key t s h (n, e) = (
    record t { place = counting (next_key key s.ticker_num) },
    with_ticker_num (erase key s.ticker_num) s,
    rw e refl,
    record {
      healthy = record { hosts = h.hosts; probes = h.probes };
      stands = next_key-erase key s.ticker_num;
    },
  )

  -- The nodes in the list are those that they were.
  pub Keeps-send :
      (m : StdMap Str) (to : Str) (at : ℕ) (msg : J)
      → Keeps (λ r. r.host_list ≡ m) (send E to at msg)
  unfolding send modify
  Keeps-send m to at msg = keeps (λ s h. h)

  pub same_hosts :
      (k : Str) (m : StdMap Str) (u : Server J) → u.host_list ≡ m → IsAt (next_key k m) u.host_list
  same_hosts k m u e = subst (λ x. IsAt (next_key k m) x) (sym e) (next_key-IsAt k m)

  tick_turn-Goes :
      (k : Str) (t : Timer J) (s : Server J)
      → IsHealthy E s
      → IsAt (some k) s.host_list
      → Goes (tick_turn E k t) s
  unfolding tick_turn tick_live with_ticker_num ◌>>=◌
  tick_turn-Goes k t s h (v, e) =
      let r = find-AllValues (IsReadable E) k v s.host_list h.hosts e in
      let (x, u, f, g) = tick_host-Fine E s.node_id s.local_ep_info k v r s h in
      let same =
        after
          (Keeps-tick_host E (Keeps-send s.host_list) (λ q key h. h) s.node_id s.local_ep_info k
            (E.obj r.fields))
          s x u refl f in
      (
        record t { place = ticking (next_key k s.host_list) },
        u,
        rw (e, parsed-text E v r, f) refl,
        record { healthy = g; stands = same_hosts k s.host_list u same },
      )

  pub Keeps-tell :
      (m : StdMap Str) (msg : J) (own k : Str) (item : J)
      → Keeps
          (λ r. r.host_list ≡ m)
          (if str_eq k own run pure tt else do
            ip ← require (node_ip E item)
            port ← require (node_port E item)
            send E ip port msg)
  Keeps-tell m msg own k item = search (keeps_rules, Keeps-send) depth 12

  tell_turn-Goes :
      (msg : J) (k : Str) (t : Timer J) (s : Server J)
      → IsHealthy E s
      → IsAt (some k) s.host_list
      → Goes (tell_turn E msg k t) s
  unfolding tell_turn notify_live ◌>>=◌
  tell_turn-Goes msg k t s h (v, e) =
      let r = find-AllValues (IsReadable E) k v s.host_list h.hosts e in
      let (x, u, f, g) = tell_host-Fine E msg s.node_id k v r s h in
      let same = after (Keeps-tell s.host_list msg s.node_id k (E.obj r.fields)) s x u refl f in
      (
        record t { place = telling msg (next_key k s.host_list) },
        u,
        rw (e, parsed-text E v r, f) refl,
        record { healthy = g; stands = same_hosts k s.host_list u same },
      )

  pub turn-Goes :
      (clock : ℕ) (t : Timer J) (place : Place J) (s : Server J)
      → IsHealthy E s
      → Stands place s
      → Goes (turn E clock t place) s
  unfolding turn ◌>>=◌ if◌run◌else◌
  turn-Goes clock t asleep s h p =
      (_, s, refl, record { healthy = h; stands = first_key-IsAt s.f_ck_time_map })
  turn-Goes clock t (checking (some id)) s h p = check_turn-Goes id t s h p
  turn-Goes clock t (checking none) s h p =
      (_, s, refl, record { healthy = h; stands = first_key-IsAt s.ticker_num })
  turn-Goes clock t (counting (some key)) s h p = count_turn-Goes key t s h p
  turn-Goes clock t (counting none) s h p =
      (_, s, refl, record { healthy = h; stands = first_key-IsAt s.host_list })
  turn-Goes clock t (pruning key (some k)) s h p = prune_turn-Goes key k t s h p.0 p.1
  turn-Goes clock t (pruning key none) s h p = drop_turn-Goes key t s h p.0
  turn-Goes clock t (ticking (some k)) s h p = tick_turn-Goes k t s h p
  turn-Goes clock t (ticking none) s h p = elim (Bool-cases t.need_notify) [
    | inl late ↦ (
      at_place E (telling (update_msg E s.node_id s.host_list) (first_key s.host_list)) t,
      s,
      rw late refl,
      record { healthy = h; stands = first_key-IsAt s.host_list },
    )
    | inr early ↦ (at_place E listing t, s, rw early refl, record { healthy = h; stands = tt })
  ]
  turn-Goes clock t (telling msg (some k)) s h p = tell_turn-Goes msg k t s h p
  turn-Goes clock t (telling msg none) s h p = (_, s, refl, record { healthy = h; stands = tt })
  turn-Goes clock t listing s h p =
      let (x, u, f, g) = list_msg_queue-Fine E s h in
      (at_place E asleep t, u, rw f refl, record { healthy = g; stands = tt })
