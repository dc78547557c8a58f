-- ===== src/Server/Interleave/Undefined.antt =====
-- Where the two threads (server.cpp) make a turn of the timer undefined.
use nat.Prelude.{
  ℕ, Str, str_eq, leb, none, some, get_elem?, ◌≡◌, ◌⊎◌, refl, subst, Option-cases, Bool-cases, inl,
  inr,
}
use nat.StdMap.{find}
use nat.StdMap.Iterator.{IsAt}
use nat.External.{Env}
use nat.Effect.{exception, undefined, endless, resume, Outcome, done, fails, M, ◌>>=◌, if◌run◌else◌}
use nat.Effect.Throws.{Throws, throws_rules}
use nat.Server.State.{Server, erase_ticker}
use nat.Server.Timer.{package_num, check_entry, tick_host, list_msg_queue}
use nat.Server.Live.{tick_live, notify_live}
use nat.Server.RoundThrows.{Throws-send, Throws-list_msg_queue}
use nat.Describe.{node_ip, node_port}
use nat.Server.Ticker.{ticker_key}
use nat.Server.Receive.{Datagram}
use nat.Server.Interleave.{
  Place, asleep, checking, counting, pruning, ticking, telling, listing, Timer, turn, check_turn,
  count_turn, prune_turn, drop_turn, tick_turn, tell_turn, Mixed,
}
use nat.Server.Interleave.Nodes.{HostsStand, Mixed-HostsStand}
use nat.Server.Interleave.Expiry.{unless_thrown, check_entry-undefined}

module _ {J : Type 0} (E : Env J) where
  -- The entry at which a loop over one of the other two maps stands is gone, or is of a probe whose key
  -- has fewer than five parts.
  abbrev pub IsLost : Place J → Server J → Type 0
  IsLost asleep s = ⊥
  IsLost (checking none) s = ⊥
  IsLost (checking (some id)) s =
      (find id s.f_ck_time_map ≡ none)
      ⊎ ((key : Str) × (find id s.f_ck_time_map ≡ some key) × (get_elem? (E.split key) 4 ≡ none))
  IsLost (counting none) s = ⊥
  IsLost (counting (some key)) s = find key s.ticker_num ≡ none
  IsLost (pruning key p) s = find key s.ticker_num ≡ none
  IsLost (ticking p) s = ⊥
  IsLost (telling msg p) s = ⊥
  IsLost listing s = ⊥

  -- A run that is undefined only where `lost` says.
  abbrev Faults : Type 0 → Outcome (Server J) (Timer J) → Type 0
  Faults lost (done t u) = Unit
  Faults lost (fails undefined u) = lost
  Faults lost (fails exception u) = Unit
  Faults lost (fails endless u) = Unit

  resume-Faults :
      {A : Type 0} (lost : Type 0) (o : Outcome (Server J) A) (k : A → M (Server J) (Timer J))
      → ((v : Server J) → o ≡ fails undefined v → lost)
      → ((a : A) (u : Server J) → Faults lost (k a u))
      → Faults lost (resume o k)
  resume-Faults lost (done a u) k h q = q a u
  resume-Faults lost (fails undefined u) k h q = h u refl
  resume-Faults lost (fails exception u) k h q = tt
  resume-Faults lost (fails endless u) k h q = tt

  check_turn-Faults :
      (id : Str) (t : Timer J) (s : Server J)
      → Faults (IsLost (checking (some id)) s) (check_turn E id t s)
  unfolding check_turn ◌>>=◌
  check_turn-Faults id t s = elim (Option-cases (find id s.f_ck_time_map)) [
    | inl e ↦ rw e (inl refl)
    | inr (key, e) ↦ rw e (
        resume-Faults _ (check_entry E t.now id key s) _
          (λ v f. inr (key, refl, check_entry-undefined E t.now id key s v f)) (λ late u. tt))
  ]

  count_turn-Faults :
      (key : Str) (t : Timer J) (s : Server J)
      → Faults (IsLost (counting (some key)) s) (count_turn E key t s)
  unfolding count_turn ◌>>=◌ if◌run◌else◌
  count_turn-Faults key t s = elim (Option-cases (find key s.ticker_num)) [
    | inl e ↦ rw e refl
    | inr (n, e) ↦ elim (Bool-cases (leb package_num n)) [
      | inl late ↦ rw (e, late) tt
      | inr early ↦ rw (e, early) tt
    ]
  ]

  prune_turn-Faults :
      (key k : Str) (t : Timer J) (s : Server J)
      → IsAt (some k) s.host_list
      → Faults (IsLost (pruning key (some k)) s) (prune_turn E key k t s)
  unfolding prune_turn ◌>>=◌ if◌run◌else◌
  prune_turn-Faults key k t s (v, e) = elim (Option-cases (E.parse v)) [
    | inl f ↦ rw (e, f) tt
    | inr (item, f) ↦ elim (Option-cases (node_ip E item)) [
      | inl g ↦ rw (e, f, g) tt
      | inr (ip, g) ↦ elim (Option-cases (node_port E item)) [
        | inl p ↦ rw (e, f, g, p) tt
        | inr (port, p) ↦ elim (Option-cases (find key s.ticker_num)) [
          | inl q ↦ rw (e, f, g, p, q) refl
          | inr (n, q) ↦ elim (Bool-cases (str_eq (ticker_key ip port) key)) [
            | inl same ↦ rw (e, f, g, p, q, same) tt
            | inr other ↦ rw (e, f, g, p, q, other) tt
          ]
        ]
      ]
    ]
  ]

  drop_turn-Faults :
      (key : Str) (t : Timer J) (s : Server J)
      → Faults (IsLost (pruning key none) s) (drop_turn E key t s)
  unfolding drop_turn erase_ticker ◌>>=◌
  drop_turn-Faults key t s = elim (Option-cases (find key s.ticker_num)) [
    | inl e ↦ rw e refl
    | inr (n, e) ↦ rw e tt
  ]

  Throws-tick_live : (k v : Str) → Throws (tick_live E k v)
  unfolding tick_live tick_host
  Throws-tick_live k v = search (throws_rules, Throws-send) depth 16

  tick_turn-Faults :
      (k : Str) (t : Timer J) (s : Server J)
      → IsAt (some k) s.host_list
      → Faults ⊥ (tick_turn E k t s)
  unfolding tick_turn ◌>>=◌
  tick_turn-Faults k t s (v, e) = rw e (
      resume-Faults _ (tick_live E k v s) _ (λ u f. unless_thrown _ s u (Throws-tick_live k v) f)
        (λ x u. tt))

  Throws-notify_live : (msg : J) (k v : Str) → Throws (notify_live E msg k v)
  unfolding notify_live
  Throws-notify_live msg k v = search (throws_rules, Throws-send) depth 16

  tell_turn-Faults :
      (msg : J) (k : Str) (t : Timer J) (s : Server J)
      → IsAt (some k) s.host_list
      → Faults ⊥ (tell_turn E msg k t s)
  unfolding tell_turn ◌>>=◌
  tell_turn-Faults msg k t s (v, e) = rw e (
      resume-Faults _ (notify_live E msg k v s) _
        (λ u f. unless_thrown _ s u (Throws-notify_live msg k v) f) (λ x u. tt))

  turn-Faults :
      (clock : ℕ) (t : Timer J) (place : Place J) (s : Server J)
      → HostsStand place s
      → Faults (IsLost place s) (turn E clock t place s)
  unfolding turn ◌>>=◌ if◌run◌else◌
  turn-Faults clock t asleep s h = tt
  turn-Faults clock t (checking (some id)) s h = check_turn-Faults id t s
  turn-Faults clock t (checking none) s h = tt
  turn-Faults clock t (counting (some key)) s h = count_turn-Faults key t s
  turn-Faults clock t (counting none) s h = tt
  turn-Faults clock t (pruning key (some k)) s h = prune_turn-Faults key k t s h
  turn-Faults clock t (pruning key none) s h = drop_turn-Faults key t s
  turn-Faults clock t (ticking (some k)) s h = tick_turn-Faults k t s h
  turn-Faults clock t (ticking none) s h = elim (Bool-cases t.need_notify) [
    | inl late ↦ rw late tt
    | inr early ↦ rw early tt
  ]
  turn-Faults clock t (telling msg (some k)) s h = tell_turn-Faults msg k t s h
  turn-Faults clock t (telling msg none) s h = tt
  turn-Faults clock t listing s h =
      resume-Faults ⊥ (list_msg_queue E s) _
        (λ u f. unless_thrown _ s u (Throws-list_msg_queue E) f) (λ x u. tt)

  -- Whatever datagrams a node handles to the end, wherever its timer's thread stands between two turns:
  -- a turn is undefined only in the loops over `fCkTimeMap` and `tickerNum`, and only when the entry
  -- that the loop stands at is gone, or is a probe's whose key has fewer than five parts. No handler
  -- invalidates an iterator over the list of nodes.
  pub turn-IsLost :
      {Kind : Datagram → Type 0} (clock : ℕ) {s : Server J} {t : Timer J} {u : Server J}
      (v : Server J)
      → Mixed E Kind s t u
      → turn E clock t t.place u ≡ fails undefined v
      → IsLost t.place u
  turn-IsLost clock {t = t} {u} v r e =
      subst (Faults (IsLost t.place u)) e (turn-Faults clock t t.place u (Mixed-HostsStand E r))
