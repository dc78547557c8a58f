-- ===== src/Server/Lacking.antt =====
-- A node in the list whose text has no endpoint, and the rounds of the timer (`threadhandle`,
-- server.cpp), which read one in each text.
use nat.Prelude.{
  ℕ, Str, codes, str_eq, str_eq_sound, str_eq_iff, str_eq_refl, none, some, true, false, [], ◌∷◌,
  List, ◌≡◌, refl, ◌∙◌, arith, Bool-cases, Option-cases, inl, inr,
}
use nat.StdMap.{StdMap, find, has, find-assign}
use nat.External.{Env, with_field}
use nat.Effect.{final, pure, gets, modify, ◌>>=◌, ◌>>◌}
use nat.Effect.Keeps.{
  Keeps, keeps, at_state, Keeps-resume, Keeps-bind, Keeps-require, Keeps-pure, Keeps-if,
  Keeps-raise, keeps_rules,
}
use nat.Describe.{string_at, first_endpoint, node_ip}
use nat.Server.State.{Server, assign_node, erase_check}
use nat.Server.Filtering.{mark_filtering}
use nat.Server.Timer.{is_filter, filter_host, expire_check, check_entry, sweep_checks}

module _ {J : Type 0} (E : Env J) where
  pub node_ip-missing :
      (fs : List (Str × J)) → find (codes "endpoint") fs ≡ none → node_ip E (E.obj fs) ≡ none
  unfolding node_ip first_endpoint string_at
  node_ip-missing fs h =
      rw (E.at-missing (codes "endpoint") fs h, E.first-null, E.at-null, E.get_string-null) refl

  pub apart : str_eq (codes "natfiltering") (codes "endpoint") ≡ false
  unfolding str_eq
  apart = refl

  pub find-with_field :
      (k j : Str) (v : J) (fs : List (Str × J))
      → str_eq k j ≡ false
      → find j (with_field k v fs) ≡ find j fs
  unfolding find
  find-with_field k j v [] off = rw off refl
  find-with_field k j v ((i, w) ∷ fs) off =
      ground (arith, find-with_field k j v fs off, str_eq_iff i k, str_eq_iff i j, str_eq_iff k j)

  -- The text of `node` is that of an object without an endpoint.
  pub record IsLacking (node : Str) (s : Server J) : Type 0 where
    pub fields : List (Str × J)
    pub known : find node s.host_list ≡ some (E.dump (E.obj fields))
    pub missing : find (codes "endpoint") fields ≡ none

  module _ (node : Str) where
    Keeps-elsewhere :
        (host info : Str)
        → str_eq host node ≡ false
        → Keeps (IsLacking node) (assign_node host info)
    unfolding assign_node modify
    Keeps-elsewhere host info off = keeps λ s l. record {
      fields = l.fields;
      known = find-assign host node info s.host_list ∙ rw off (l.known);
      missing = l.missing;
    }

    Keeps-marked :
        (host text : Str)
        → str_eq host node ≡ false
        → Keeps (IsLacking node) (mark_filtering E is_filter host text)
    unfolding mark_filtering
    Keeps-marked host text off =
        Keeps-bind _ _ (Keeps-require _)
          λ info. Keeps-bind _ _ (Keeps-require _) λ info'. Keeps-elsewhere host _ off

    marked-IsLacking :
        (s : Server J) (fs : List (Str × J))
        → find node s.host_list ≡ some (E.dump (E.obj fs))
        → find (codes "endpoint") fs ≡ none
        → IsLacking node (final (mark_filtering E is_filter node (E.dump (E.obj fs)) s))
    unfolding mark_filtering assign_node ◌>>=◌ modify
    marked-IsLacking s fs known missing =
        let there : has node s.host_list ≡ true = rw (has, known) refl in
        let marked = with_field (codes "natfiltering") (E.str is_filter) fs in
        rw (E.parse-dump (E.obj fs), E.put-obj (codes "natfiltering") (E.str is_filter) fs)
          (record {
            fields = marked;
            known =
                find-assign node node (E.dump (E.obj marked)) s.host_list
                ∙ rw (str_eq_refl node, there) refl;
            missing =
                find-with_field (codes "natfiltering") (codes "endpoint") (E.str is_filter) fs apart
                ∙ missing;
          })

    -- What the timer does to the host in a late entry.
    filtered-IsLacking :
        (host : Str) (s : Server J)
        → IsLacking node s
        → IsLacking node (final (filter_host E host (find host s.host_list) s))
    unfolding filter_host
    filtered-IsLacking host s l = elim (Bool-cases (str_eq host node)) [
      | inl here ↦
          rw (str_eq_sound host node here, l.known) (marked-IsLacking s l.fields l.known l.missing)
      | inr other ↦ elim (Option-cases (find host s.host_list)) [
        | inl none_there ↦ rw none_there (at_state {P = IsLacking node} (Keeps-pure tt) s l)
        | inr (text, there) ↦ rw there (at_state (Keeps-marked host text other) s l)
      ]
    ]

    Keeps-uncheck : (id : Str) → Keeps (IsLacking node) (erase_check id)
    unfolding erase_check modify
    Keeps-uncheck id =
        keeps λ s l. record { fields = l.fields; known = l.known; missing = l.missing }

    Keeps-filtering :
        (id host : Str)
        → Keeps (IsLacking node) (do
          hosts ← gets (λ s. s.host_list)
          filter_host E host (find host hosts)
          erase_check id
          pure true)
    unfolding ◌>>=◌
    Keeps-filtering id host = keeps λ s l.
        Keeps-resume (filter_host E host (find host s.host_list) s) _ (filtered-IsLacking host s l)
          (λ x. Keeps-bind _ _ (Keeps-uncheck id) λ y. Keeps-pure true)

    Keeps-expire_check : (id kind host : Str) → Keeps (IsLacking node) (expire_check E id kind host)
    unfolding expire_check
    Keeps-expire_check id kind host = Keeps-if _ _ _ (Keeps-filtering id host) (Keeps-raise _)

    Keeps-check_entry : (now : ℕ) (id key : Str) → Keeps (IsLacking node) (check_entry E now id key)
    unfolding check_entry
    Keeps-check_entry now id key = search (keeps_rules, Keeps-expire_check) depth 12

    pub Keeps-sweep_checks :
        (now : ℕ) (checks : StdMap Str) → Keeps (IsLacking node) (sweep_checks E now checks)
    unfolding sweep_checks
    Keeps-sweep_checks now [] = Keeps-pure false
    Keeps-sweep_checks now ((id, key) ∷ checks) =
        Keeps-bind _ _ (Keeps-check_entry now id key)
          λ one. Keeps-bind _ _ (Keeps-sweep_checks now checks) λ more. Keeps-pure _
