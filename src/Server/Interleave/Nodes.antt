-- ===== src/Server/Interleave/Nodes.antt =====
-- The timer's iterators over the list of nodes (server.cpp), whatever datagrams are handled between its
-- turns: no handler takes a node from `_HostList`.
use nat.Prelude.{
  ℕ, Str, str_eq, leb, Option, none, some, ◌≡◌, refl, subst, Option-cases, Bool-cases, inl, inr,
}
use nat.StdMap.{StdMap, find}
use nat.StdMap.Iterator.{
  IsAt, IsAt-insert, IsAt-assign, first_key-IsAt, next_key-IsAt, next_key-erase,
}
use nat.External.{Env}
use nat.Effect.{Outcome, done, fails, M, resume, ◌>>=◌, if◌run◌else◌}
use nat.Effect.Keeps.{Keeps, keeps, after, Keeps-bind, Keeps-require, Keeps-gets}
use nat.ManagerHost.{add_new_node}
use nat.Describe.{node_ip, node_port}
use nat.Server.State.{
  Server, with_hosts, with_ticker_num, add_node, assign_node, erase_ticker, add_check, erase_check,
  send, gen_uuid,
}
use nat.Server.Receive.{RecvError, Datagram, handle_receive}
use nat.Server.Stable.{IsStable, Keeps-handle_receive}
use nat.Server.Ticker.{ticker_key}
use nat.Server.Timer.{package_num, check_entry, list_msg_queue}
use nat.Server.Live.{tick_live, notify_live}
use nat.Server.Interleave.{
  Place, asleep, checking, counting, pruning, ticking, telling, listing, Timer, turn, check_turn,
  count_turn, prune_turn, drop_turn, tick_turn, tell_turn, Mixed, begins, handles, turns,
}
use nat.Server.Interleave.Safe.{same_hosts, Keeps-send, Keeps-tell}
use nat.Server.TimerStable.{Keeps-tick_host}

-- An iterator over the list of nodes is at a node that is there, or at `end()`.
abbrev pub HostsStand : {J : Type 0} → Place J → Server J → Type 0
HostsStand asleep s = Unit
HostsStand (checking p) s = Unit
HostsStand (counting p) s = Unit
HostsStand (pruning key p) s = IsAt p s.host_list
HostsStand (ticking p) s = IsAt p s.host_list
HostsStand (telling msg p) s = IsAt p s.host_list
HostsStand listing s = Unit

module _ {J : Type 0} (E : Env J) where
  IsAt-IsStable :
      (p : Option Str) (now : ℕ) (ip : Str) (port : ℕ)
      → IsStable E (λ s. IsAt p s.host_list) now ip port
  unfolding add_node add_new_node assign_node erase_ticker add_check erase_check send gen_uuid ◌>>=◌
  IsAt-IsStable p now ip port = record {
    add = λ id info. keeps (λ s h. IsAt-insert p id info s.host_list h);
    assign = λ id info. keeps (λ s h. IsAt-assign p id info s.host_list h);
    sends = λ to at msg. keeps (λ s h. h);
    check = λ id node. keeps (λ s h. h);
    uncheck = λ id. keeps (λ s h. h);
    untick = λ key. keeps (λ s h. h);
    draw = keeps (λ s h. h);
    info = λ s j h. h;
    publics = λ s ns h. h;
  }

  Keeps-HostsStand :
      (place : Place J) (err : RecvError) (d : Datagram)
      → Keeps (HostsStand place) (handle_receive E err d)
  Keeps-HostsStand asleep err d = keeps (λ s h. tt)
  Keeps-HostsStand (checking p) err d = keeps (λ s h. tt)
  Keeps-HostsStand (counting p) err d = keeps (λ s h. tt)
  Keeps-HostsStand (pruning key p) err d =
      Keeps-handle_receive E d (IsAt-IsStable p d.now d.ip d.port) err (λ s b h. h)
  Keeps-HostsStand (ticking p) err d =
      Keeps-handle_receive E d (IsAt-IsStable p d.now d.ip d.port) err (λ s b h. h)
  Keeps-HostsStand (telling msg p) err d =
      Keeps-handle_receive E d (IsAt-IsStable p d.now d.ip d.port) err (λ s b h. h)
  Keeps-HostsStand listing err d = keeps (λ s h. tt)

  -- What a turn that returns leaves, and nothing of one that fails.
  abbrev Lands : Outcome (Server J) (Timer J) → Type 0
  Lands (done t u) = HostsStand t.place u
  Lands (fails f u) = Unit

  resume-Lands :
      {A : Type 0} (o : Outcome (Server J) A) (k : A → M (Server J) (Timer J))
      → ((a : A) (u : Server J) → o ≡ done a u → Lands (k a u))
      → Lands (resume o k)
  resume-Lands (done a u) k h = h a u refl
  resume-Lands (fails f u) k h = tt

  check_turn-Lands : (id : Str) (t : Timer J) (s : Server J) → Lands (check_turn E id t s)
  unfolding check_turn ◌>>=◌
  check_turn-Lands id t s = elim (Option-cases (find id s.f_ck_time_map)) [
    | inl e ↦ rw e tt
    | inr (key, e) ↦ rw e (resume-Lands (check_entry E t.now id key s) _ λ late u f. tt)
  ]

  count_turn-Lands : (key : Str) (t : Timer J) (s : Server J) → Lands (count_turn E key t s)
  unfolding count_turn ◌>>=◌ if◌run◌else◌
  count_turn-Lands key t s = elim (Option-cases (find key s.ticker_num)) [
    | inl e ↦ rw e tt
    | inr (n, e) ↦ elim (Bool-cases (leb package_num n)) [
      | inl late ↦ rw (e, late) (first_key-IsAt s.host_list)
      | inr early ↦ rw (e, early) tt
    ]
  ]

  prune_turn-Lands : (key k : Str) (t : Timer J) (s : Server J) → Lands (prune_turn E key k t s)
  unfolding prune_turn ◌>>=◌ if◌run◌else◌ with_hosts
  prune_turn-Lands key k t s = elim (Option-cases (find k s.host_list)) [
    | inl e ↦ rw e tt
    | inr (v, e) ↦ elim (Option-cases (E.parse v)) [
      | inl f ↦ rw (e, f) tt
      | inr (item, f) ↦ elim (Option-cases (node_ip E item)) [
        | inl g ↦ rw (e, f, g) tt
        | inr (ip, g) ↦ elim (Option-cases (node_port E item)) [
          | inl p ↦ rw (e, f, g, p) tt
          | inr (port, p) ↦ elim (Option-cases (find key s.ticker_num)) [
            | inl q ↦ rw (e, f, g, p, q) tt
            | inr (n, q) ↦ elim (Bool-cases (str_eq (ticker_key ip port) key)) [
              | inl same ↦ rw (e, f, g, p, q, same) (next_key-erase k s.host_list)
              | inr other ↦ rw (e, f, g, p, q, other) (next_key-IsAt k s.host_list)
            ]
          ]
        ]
      ]
    ]
  ]

  drop_turn-Lands : (key : Str) (t : Timer J) (s : Server J) → Lands (drop_turn E key t s)
  unfolding drop_turn ◌>>=◌
  drop_turn-Lands key t s = elim (Option-cases (find key s.ticker_num)) [
    | inl e ↦ rw e tt
    | inr (n, e) ↦ rw e (resume-Lands (erase_ticker key s) _ λ x u f. tt)
  ]

  -- The nodes in the list are those that they were.
  Keeps-tick_live : (m : StdMap Str) (k v : Str) → Keeps (λ r. r.host_list ≡ m) (tick_live E k v)
  unfolding tick_live with_ticker_num
  Keeps-tick_live m k v = Keeps-bind _ _ (Keeps-require _) λ item.
      Keeps-bind _ _ (Keeps-gets _) λ own.
        Keeps-bind _ _ (Keeps-gets _)
          λ info. Keeps-tick_host E (Keeps-send E m) (λ s key h. h) own info k item

  Keeps-notify_live :
      (m : StdMap Str) (msg : J) (k v : Str) → Keeps (λ r. r.host_list ≡ m) (notify_live E msg k v)
  unfolding notify_live
  Keeps-notify_live m msg k v =
      Keeps-bind _ _ (Keeps-require _)
        λ item. Keeps-bind _ _ (Keeps-gets _) λ own. Keeps-tell E m msg own k item

  tick_turn-Lands : (k : Str) (t : Timer J) (s : Server J) → Lands (tick_turn E k t s)
  unfolding tick_turn ◌>>=◌
  tick_turn-Lands k t s = elim (Option-cases (find k s.host_list)) [
    | inl e ↦ rw e tt
    | inr (v, e) ↦ rw e (
        resume-Lands (tick_live E k v s) _ λ x u f.
          same_hosts E k s.host_list u (after (Keeps-tick_live s.host_list k v) s x u refl f))
  ]

  tell_turn-Lands : (msg : J) (k : Str) (t : Timer J) (s : Server J) → Lands (tell_turn E msg k t s)
  unfolding tell_turn ◌>>=◌
  tell_turn-Lands msg k t s = elim (Option-cases (find k s.host_list)) [
    | inl e ↦ rw e tt
    | inr (v, e) ↦ rw e (
        resume-Lands (notify_live E msg k v s) _ λ x u f.
          same_hosts E k s.host_list u (after (Keeps-notify_live s.host_list msg k v) s x u refl f))
  ]

  turn-Lands :
      (clock : ℕ) (t : Timer J) (place : Place J) (s : Server J) → Lands (turn E clock t place s)
  unfolding turn ◌>>=◌ if◌run◌else◌
  turn-Lands clock t asleep s = tt
  turn-Lands clock t (checking (some id)) s = check_turn-Lands id t s
  turn-Lands clock t (checking none) s = tt
  turn-Lands clock t (counting (some key)) s = count_turn-Lands key t s
  turn-Lands clock t (counting none) s = first_key-IsAt s.host_list
  turn-Lands clock t (pruning key (some k)) s = prune_turn-Lands key k t s
  turn-Lands clock t (pruning key none) s = drop_turn-Lands key t s
  turn-Lands clock t (ticking (some k)) s = tick_turn-Lands k t s
  turn-Lands clock t (ticking none) s = elim (Bool-cases t.need_notify) [
    | inl late ↦ rw late (first_key-IsAt s.host_list)
    | inr early ↦ rw early tt
  ]
  turn-Lands clock t (telling msg (some k)) s = tell_turn-Lands msg k t s
  turn-Lands clock t (telling msg none) s = tt
  turn-Lands clock t listing s = resume-Lands (list_msg_queue E s) _ λ x u e. tt

  pub Mixed-HostsStand :
      {Kind : Datagram → Type 0} {s : Server J} {t : Timer J} {u : Server J}
      → Mixed E Kind s t u
      → HostsStand t.place u
  Mixed-HostsStand begins = tt
  Mixed-HostsStand (handles {t} {u} {v} err d k r e) =
      after (Keeps-HostsStand t.place err d) u tt v (Mixed-HostsStand r) e
  Mixed-HostsStand (turns {t} {t'} {u} {v} clock r e) = subst Lands e (turn-Lands clock t t.place u)
