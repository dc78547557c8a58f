-- ===== src/Server/Prune.antt =====
-- Which nodes the timer (`threadhandle`, server.cpp) drops when one does not answer.
use nat.Prelude.{
  ℕ, ◌≤◌, Str, str_eq, str_eq_refl, str_eq_sound, leb, Bool, true, false, none, some, [], ◌∷◌, ◌≡◌,
  ◌≢◌, refl, sym, ap, subst, ◌∙◌, arith, if◌then◌else◌, Bool-cases, inl, inr,
}
use nat.External.{Env}
use nat.StdMap.{StdMap, find, erase, IsSorted, erase-IsSorted, Above, Above-find, find-erase}
use nat.Effect.{done, if◌run◌else◌}
use nat.Effect.Yields.{>>=-eq-done, require-eq-done, gets-eq-done, modify-eq-done, pure-eq-done}
use nat.Describe.{node_ip, node_port}
use nat.Server.State.{Server, with_hosts, with_ticker_num, erase_ticker}
use nat.Server.Ticker.{ticker_key}
use nat.Server.Timer.{package_num, prune_hosts, expire_ticker}

module _ {J : Type 0} (E : Env J) where
  some_inj : {A : Type 0} {a b : A} → some a ≡ some b → a ≡ b
  some_inj e = cc

  -- The text is that of a node whose heartbeats are counted under the key.
  pub record CountedUnder (key v : Str) : Type 0 where
    pub item : J
    pub ip : Str
    pub port : ℕ
    pub parsed : E.parse v ≡ some item
    pub ip_of : node_ip E item ≡ some ip
    pub port_of : node_port E item ≡ some port
    pub shape : key ≡ ticker_key ip port

  -- One turn of the loop: the state that it leaves.
  prune-step :
      (key k v : Str) (hosts : StdMap Str) (s t : Server J)
      → prune_hosts E key ((k, v) ∷ hosts) s ≡ done tt t
      → (own_key : Str) × CountedUnder own_key v
        × (prune_hosts E key hosts
              (if str_eq own_key key then with_hosts (erase k s.host_list) s else s)
            ≡ done tt t)
  unfolding prune_hosts if◌run◌else◌
  prune-step key k v hosts s t h =
      let (item, s1, e1, h1) = >>=-eq-done _ _ s tt t h in
      let (ip, s2, e2, h2) = >>=-eq-done _ _ s1 tt t h1 in
      let (port, s3, e3, h3) = >>=-eq-done _ _ s2 tt t h2 in
      let (x, s4, e4, h4) = >>=-eq-done _ _ s3 tt t h3 in
      let (p1, q1) = require-eq-done _ s item s1 e1 in
      let (p2, q2) = require-eq-done _ s1 ip s2 e2 in
      let (p3, q3) = require-eq-done _ s2 port s3 e3 in
      let same : s3 ≡ s = sym (q1 ∙ q2 ∙ q3) in
      let own_key = ticker_key ip port in
      (
        own_key,
        record {
          item = item;
          ip = ip;
          port = port;
          parsed = p1;
          ip_of = p2;
          port_of = p3;
          shape = refl;
        },
        elim (Bool-cases (str_eq own_key key)) [
          | inl hit ↦ rw hit (
              subst (λ r. prune_hosts E key hosts r ≡ done tt t)
                (sym (modify-eq-done _ s3 s4 (rw hit at e4))
                  ∙ ap (λ r. with_hosts (erase k r.host_list) r) same)
                h4)
          | inr miss ↦ rw miss (
              subst (λ r. prune_hosts E key hosts r ≡ done tt t)
                (sym (pure-eq-done tt s3 x s4 (rw miss at e4)).1 ∙ same) h4)
        ],
      )

  CountedUnder-unique : (a b v : Str) → CountedUnder a v → CountedUnder b v → a ≡ b
  CountedUnder-unique a b v p q =
      let item = some_inj (sym p.parsed ∙ q.parsed) in
      let ip = some_inj (sym p.ip_of ∙ ap (node_ip E) item ∙ q.ip_of) in
      let port = some_inj (sym p.port_of ∙ ap (node_port E) item ∙ q.port_of) in
      p.shape ∙ rw (ip, port) (sym q.shape)

  -- The state after a turn at the key `k`, at another key.
  find-turn :
      (hit : Bool) (j k : Str) (s : Server J)
      → IsSorted s.host_list
      → str_eq k j ≡ false
      → find j (if hit then with_hosts (erase k s.host_list) s else s).host_list
        ≡ find j s.host_list
  unfolding with_hosts
  find-turn true j k s sorted e = find-erase k j s.host_list sorted ∙ rw e refl
  find-turn false j k s sorted e = refl

  turn-IsSorted :
      (hit : Bool) (k : Str) (s : Server J)
      → IsSorted s.host_list
      → IsSorted (if hit then with_hosts (erase k s.host_list) s else s).host_list
  unfolding with_hosts
  turn-IsSorted true k s sorted = erase-IsSorted k s.host_list sorted
  turn-IsSorted false k s sorted = sorted

  -- At its own key.
  find-turn_self :
      (hit : Bool) (k : Str) (s : Server J)
      → IsSorted s.host_list
      → find k (if hit then with_hosts (erase k s.host_list) s else s).host_list
        ≡ (if hit then none else find k s.host_list)
  unfolding with_hosts
  find-turn_self true k s sorted = find-erase k k s.host_list sorted ∙ rw (str_eq_refl k) refl
  find-turn_self false k s sorted = refl

  find-cons_ne :
      (j k v : Str) (hosts : StdMap Str)
      → find j ((k, v) ∷ hosts) ≡ none
      → (str_eq k j ≡ false) × (find j hosts ≡ none)
  unfolding find
  find-cons_ne j k v hosts h = (ground (arith, h), ground (arith, h))

  find-cons_eq :
      (j k v : Str) (hosts : StdMap Str) → str_eq k j ≡ true → find j ((k, v) ∷ hosts) ≡ some v
  unfolding find
  find-cons_eq j k v hosts h = rw h refl

  find-cons_other :
      (j k v : Str) (hosts : StdMap Str)
      → str_eq k j ≡ false
      → find j ((k, v) ∷ hosts) ≡ find j hosts
  unfolding find
  find-cons_other j k v hosts h = rw h refl

  no_entry : (j v : Str) → find j [] ≢ some v
  unfolding find
  no_entry j v h = cc

  prune-missing :
      (key j : Str) (hosts : StdMap Str) (s t : Server J)
      → find j hosts ≡ none
      → IsSorted s.host_list
      → prune_hosts E key hosts s ≡ done tt t
      → find j t.host_list ≡ find j s.host_list
  unfolding prune_hosts
  prune-missing key j [] s t m sorted h =
      ap (λ r. find j r.host_list) (sym (pure-eq-done tt s tt t h).1)
  prune-missing key j ((k, v) ∷ hosts) s t m sorted h =
      let (own, c, rest) = prune-step key k v hosts s t h in
      let (ne, gone) = find-cons_ne j k v hosts m in
      prune-missing key j hosts _ t gone (turn-IsSorted (str_eq own key) k s sorted) rest
      ∙ find-turn (str_eq own key) j k s sorted ne

  prune-found :
      (key own j v : Str) (hosts : StdMap Str) (s t : Server J)
      → IsSorted hosts
      → find j hosts ≡ some v
      → CountedUnder own v
      → IsSorted s.host_list
      → prune_hosts E key hosts s ≡ done tt t
      → find j t.host_list ≡ (if str_eq own key then none else find j s.host_list)
  prune-found key own j v [] s t order m c sorted h = absurd (no_entry j v m)
  prune-found key own j v ((k, w) ∷ hosts) s t order m c sorted h =
      let (own', c', rest) = prune-step key k w hosts s t h in
      elim (Bool-cases (str_eq k j)) [
        | inl same ↦
            let e = str_eq_sound k j same in
            let text = some_inj (sym (find-cons_eq j k w hosts same) ∙ m) in
            let keys = CountedUnder-unique own' own v (subst (CountedUnder own') text c') c in
            prune-missing key j hosts _ t
              (Above-find j hosts (subst (λ x. Above x hosts) e order.0))
              (turn-IsSorted (str_eq own' key) k s sorted) rest
            ∙ subst
                (λ x.
                  find x
                    (if str_eq own' key then with_hosts (erase k s.host_list) s else s).host_list
                  ≡ (if str_eq own' key then none else find x s.host_list))
                e (find-turn_self (str_eq own' key) k s sorted)
            ∙ ap (λ x. if str_eq x key then none else find j s.host_list) keys
        | inr ne ↦
            prune-found key own j v hosts _ t order.1 (sym (find-cons_other j k w hosts ne) ∙ m) c
              (turn-IsSorted (str_eq own' key) k s sorted) rest
            ∙ ap (λ x. if str_eq own key then none else x)
                (find-turn (str_eq own' key) j k s sorted ne)
      ]

  pruned_from :
      (key : Str) (hosts hosts' : StdMap Str) (s s' t : Server J)
      → hosts ≡ hosts'
      → s ≡ s'
      → prune_hosts E key hosts' s' ≡ done tt t
      → prune_hosts E key hosts s ≡ done tt t
  pruned_from key hosts hosts' s s' t e q h = rw (e, q) h

  -- Where the removal of a key that has counted 60 unanswered heartbeats or more returns, it says
  -- that the others are to be told; of the nodes in the list those whose heartbeats are counted under
  -- the key are gone, and the others have their texts.
  pub expire_ticker-drops :
      (key own j v : Str) (n : ℕ) (s t : Server J) (b : Bool)
      → package_num ≤ n
      → IsSorted s.host_list
      → find j s.host_list ≡ some v
      → CountedUnder own v
      → expire_ticker E key n s ≡ done b t
      → (b ≡ true) × (find j t.host_list ≡ (if str_eq own key then none else some v))
  unfolding expire_ticker erase_ticker with_ticker_num if◌run◌else◌
  expire_ticker-drops key own j v n s t b many sorted m c h =
      let late : leb package_num n ≡ true = ground (arith, many) in
      let (hosts, s1, e1, h1) = >>=-eq-done _ _ s b t (rw late at h) in
      let (x, s2, e2, h2) = >>=-eq-done _ _ s1 b t h1 in
      let (y, s3, e3, h3) = >>=-eq-done _ _ s2 b t h2 in
      let (p1, q1) = gets-eq-done _ s hosts s1 e1 in
      let (p4, q4) = pure-eq-done true s3 b t h3 in
      let pruned = pruned_from key _ _ s s1 s2 p1 q1 e2 in
      (
        sym p4,
        ap (λ r. find j r.host_list) (sym (modify-eq-done _ s2 s3 e3 ∙ q4))
            ∙ prune-found key own j v s.host_list s s2 sorted m c sorted pruned
            ∙ ap (λ o. if str_eq own key then none else o) m,
      )
