-- ===== src/Server/Interleave/Loops.antt =====
-- The loops of the timer (`threadhandle`, server.cpp) as turns, one for each entry.
use nat.Prelude.{
  ℕ, Str, str_eq, leb, Option, none, some, Bool, true, false, ◌||◌, ◌≡◌, refl, ap, sym, subst, ◌∙◌,
  Option-cases, Bool-cases, inl, inr,
}
use nat.StdMap.{StdMap, find, erase}
use nat.StdMap.Cursor.{beyond}
use nat.StdMap.Iterator.{first_key, next_key}
use nat.External.{Env}
use nat.Effect.{done, pure, modify, ◌>>=◌, if◌run◌else◌}
use nat.Effect.Keeps.{after}
use nat.Effect.Yields.{bind_done, resume-eq-done, pure-eq-done}
use nat.Effect.Iterate.{Walks, Walks-and}
use nat.Describe.{node_ip, node_port}
use nat.Server.State.{Server, with_hosts, erase_ticker}
use nat.Server.Ticker.{ticker_key}
use nat.Server.Timer.{package_num, check_entry, sweep_checks, prune_hosts, expire_ticker}
use nat.Server.Live.{both, prune_host}
use nat.Server.Live.Same.{each-prune_hosts, each-sweep_checks}
use nat.Server.Live.Round.{prune-Walks, checks-Walks, Keeps-prune_host}
use nat.Server.TimerStable.{Keeps-prune_hosts}
use nat.Server.Invariant.{IsOrdered}
use nat.Server.Interleave.{
  checking, counting, pruning, Timer, at_place, turn, check_turn, count_turn, prune_turn, drop_turn,
}
use nat.Server.Interleave.Turns.{Turns, Turns-trans, one_turn, Turns-each}

pub ||_false : (a : Bool) → (a || false) ≡ a
||_false true = refl
||_false false = refl

||_true : (a : Bool) → (a || true) ≡ true
||_true true = refl
||_true false = refl

pub ||_assoc : (a b c : Bool) → ((a || b) || c) ≡ (a || (b || c))
||_assoc true b c = refl
||_assoc false b c = refl

module _ {J : Type 0} (E : Env J) (clock now : ℕ) where
  abbrev pub at_check : Bool → Option Str → Timer J
  at_check b p = record { now = now; need_notify = b; place = checking p }

  abbrev pub at_count : Bool → Option Str → Timer J
  at_count b p = record { now = now; need_notify = b; place = counting p }

  abbrev at_prune : Str → Unit {0} → Option Str → Timer J
  at_prune key x p = record { now = now; need_notify = true; place = pruning key p }

  check_turn-check_entry :
      (b : Bool) (id key : Str) (es : StdMap Str) (s : Server J) (one : Bool) (t : Server J)
      → find id s.f_ck_time_map ≡ some key
      → beyond id t.f_ck_time_map ≡ es
      → check_entry E now id key s ≡ done one t
      → check_turn E id (at_check b (some id)) s ≡ done (at_check (b || one) (first_key es)) t
  unfolding check_turn ◌>>=◌
  check_turn-check_entry b id key es s one t here on h = rw (here, h, on) refl

  pub Turns-sweep_checks :
      (b late : Bool) (s t : Server J)
      → IsOrdered s
      → sweep_checks E now s.f_ck_time_map s ≡ done late t
      → Turns E clock (at_check b (first_key s.f_ck_time_map)) s (at_check (b || late) none) t
  unfolding turn
  Turns-sweep_checks b late s t i h =
      Turns-each E clock (λ r. r.f_ck_time_map) ◌||◌ false at_check (checks-Walks E now) ||_false
        ||_assoc
        (λ a k v es s one t i here next on h.
          one_turn E clock (check_turn-check_entry a k v es s one t here on h))
        s.f_ck_time_map none b s late t i refl (each-sweep_checks E now s.f_ck_time_map s ∙ h)

  -- The comparison that the body of the loop makes, with the key read through the outer iterator.
  prune_turn-prune_host :
      (key k v : Str) (n : ℕ) (t0 : Timer J) (s : Server J) (x : Unit {0}) (t : Server J)
      → find key s.ticker_num ≡ some n
      → find k s.host_list ≡ some v
      → prune_host E key k v s ≡ done x t
      → prune_turn E key k t0 s ≡ done (at_place E (pruning key (next_key k s.host_list)) t0) t
  unfolding prune_turn prune_host ◌>>=◌
  prune_turn-prune_host key k v n t0 s x t ticks here h = elim (Option-cases (E.parse v)) [
    | inl e ↦ absurd (let q = rw e at h in cc)
    | inr (item, e) ↦ elim (Option-cases (node_ip E item)) [
      | inl f ↦ absurd (let q = rw (e, f) at h in cc)
      | inr (ip, f) ↦ elim (Option-cases (node_port E item)) [
        | inl g ↦ absurd (let q = rw (e, f, g) at h in cc)
        | inr (port, g) ↦
            let q = rw (e, f, g) at h in
            rw (here, e, f, g, ticks)
              (bind_done
                (if str_eq (ticker_key ip port) key
                  run modify (λ r. with_hosts (erase k r.host_list) r)
                  else pure tt)
                (λ y. pure (at_place E (pruning key (next_key k s.host_list)) t0)) s x t q)
      ]
    ]
  ]

  -- The loop over the nodes keeps `tickerNum`, with the entry that the outer loop is at.
  abbrev Counted : StdMap ℕ → Server J → Type 0
  Counted m s = s.ticker_num ≡ m

  Counted-Walks :
      (key : Str) (m : StdMap ℕ)
      → Walks
          (λ s. s.host_list)
          both
          tt
          (λ s. IsOrdered s × Counted m s)
          (prune_host E key)
          (prune_host E key)
  unfolding with_hosts
  Counted-Walks key m =
      Walks-and _ _ _ (prune-Walks E key) (λ k v. Keeps-prune_host E key k v (λ s h. h))

  Counted-prune_hosts :
      (key : Str) (s : Server J) (x : Unit {0}) (t : Server J)
      → prune_hosts E key s.host_list s ≡ done x t
      → t.ticker_num ≡ s.ticker_num
  unfolding with_hosts
  Counted-prune_hosts key s x t h =
      after {P = Counted s.ticker_num} (Keeps-prune_hosts E (λ r k q. q) key s.host_list) s x t refl
        h

  Turns-prune_hosts :
      (key : Str) (n : ℕ) (s : Server J) (x : Unit {0}) (t : Server J)
      → IsOrdered s
      → find key s.ticker_num ≡ some n
      → prune_hosts E key s.host_list s ≡ done x t
      → Turns E clock (at_prune key tt (first_key s.host_list)) s (at_prune key tt none) t
  unfolding turn
  Turns-prune_hosts key n s x t i c h =
      Turns-each E clock (λ r. r.host_list) both tt (at_prune key) (Counted-Walks key s.ticker_num)
        (λ a. refl) (λ a b c. refl)
        (λ a k v es r one t i here next on h. one_turn E clock (
          prune_turn-prune_host key k v n (at_prune key a (some k)) r one t (ap (find key) i.1 ∙ c)
            here h
          ∙ ap (λ m. done (at_prune key tt (first_key m)) t) next))
        s.host_list none tt s x t (i, refl) refl (each-prune_hosts E key s.host_list s ∙ h)

  count_turn-late :
      (b : Bool) (key : Str) (n : ℕ) (s : Server J)
      → find key s.ticker_num ≡ some n
      → leb package_num n ≡ true
      → count_turn E key (at_count b (some key)) s
        ≡ done (at_prune key tt (first_key s.host_list)) s
  unfolding count_turn ◌>>=◌ if◌run◌else◌
  count_turn-late b key n s here late = rw (here, late) refl

  count_turn-early :
      (b : Bool) (key : Str) (n : ℕ) (es : StdMap ℕ) (s : Server J)
      → find key s.ticker_num ≡ some n
      → beyond key s.ticker_num ≡ es
      → leb package_num n ≡ false
      → count_turn E key (at_count b (some key)) s ≡ done (at_count (b || false) (first_key es)) s
  unfolding count_turn ◌>>=◌ if◌run◌else◌
  count_turn-early b key n es s here next early = rw (here, early, next, ||_false b) refl

  drop_turn-erase :
      (key : Str) (n : ℕ) (es : StdMap ℕ) (s : Server J) (x : Unit {0}) (t : Server J)
      → find key s.ticker_num ≡ some n
      → beyond key s.ticker_num ≡ es
      → erase_ticker key s ≡ done x t
      → drop_turn E key (at_prune key tt none) s ≡ done (at_count true (first_key es)) t
  unfolding drop_turn ◌>>=◌
  drop_turn-erase key n es s x t here next h = rw (here, h, next) refl

  pub counted_turn :
      (b : Bool) (key : Str) (n : ℕ) (es : StdMap ℕ) (s : Server J) (one : Bool) (t : Server J)
      → IsOrdered s
      → find key s.ticker_num ≡ some n
      → beyond key s.ticker_num ≡ es
      → expire_ticker E key n s ≡ done one t
      → Turns E clock (at_count b (some key)) s (at_count (b || one) (first_key es)) t
  unfolding turn expire_ticker ◌>>=◌ if◌run◌else◌
  counted_turn b key n es s one t i here next h = elim (Bool-cases (leb package_num n)) [
    | inl late ↦
        let (x, r, f, g) =
          resume-eq-done (prune_hosts E key s.host_list s) _ one t (rw late at h) in
        let (y, w, f2, g2) = resume-eq-done (erase_ticker key r) _ one t g in
        let (u, q) = pure-eq-done true w one t g2 in
        let same = Counted-prune_hosts key s x r f in
        let dropped =
          drop_turn-erase key n es r y w (ap (find key) same ∙ here) (ap (beyond key) same ∙ next)
            f2 in
        subst (λ v. Turns E clock (at_count b (some key)) s (at_count (b || one) (first_key es)) v)
          q
          (subst (λ o. Turns E clock (at_count b (some key)) s (at_count o (first_key es)) w)
            (sym (||_true b) ∙ ap (λ o. b || o) u)
            (Turns-trans E clock (one_turn E clock (count_turn-late b key n s here late)) (
              Turns-trans E clock (Turns-prune_hosts key n s x r i here f)
                (one_turn E clock dropped))))
    | inr early ↦
        let (u, q) = pure-eq-done false s one t (rw early at h) in
        subst (λ x. Turns E clock (at_count b (some key)) s (at_count (b || one) (first_key es)) x)
          q
          (subst (λ o. Turns E clock (at_count b (some key)) s (at_count (b || o) (first_key es)) s)
            u (one_turn E clock (count_turn-early b key n es s here next early)))
  ]
