-- ===== src/Server/Steady.antt =====
-- A round of the timer (`threadhandle`, server.cpp) on a node whose texts are descriptions returns.
use nat.Prelude.{ℕ, Str, codes, str_eq, true, false, [], ◌∷◌, ◌∙◌, Option-cases, inl, inr}
use nat.StdMap.{StdMap, find}
use nat.StdMap.Values.{find-AllValues, assign-AllValues, erase-AllValues}
use nat.External.{Env}
use nat.Effect.{M, pure, if◌run◌else◌}
use nat.Effect.Returns.{
  Returns, Returns-pure, Returns-modify, Returns-if, Returns-bind, Returns-require, Returns-gets,
}
use nat.Server.State.{Server, with_hosts, assign_node, erase_check}
use nat.Server.Filtering.{mark_filtering}
use nat.Server.CheckKey.{check_entry-check_key, head_of}
use nat.Server.Timer.{is_filter, is_late, filter_host, expire_check, check_entry, sweep_checks}
use nat.Server.Readable.{IsReadable, marked-IsReadable, IsEarly, AllEarly, IsHealthy}

module _ {J : Type 0} (E : Env J) where
  abbrev pub Fine : {A : Type 0} → M (Server J) A → Server J → Type 0
  Fine m s = Returns (IsHealthy E) m s

  mark_filtering-Fine :
      (mark host text : Str) (s : Server J)
      → IsReadable E text
      → IsHealthy E s
      → Fine (mark_filtering E mark host text) s
  unfolding mark_filtering assign_node with_hosts
  mark_filtering-Fine mark host text s r h =
      Returns-require _ _ (E.obj r.fields) _ s (rw (r.shape) (E.parse-dump (E.obj r.fields))) (
        Returns-require _ _ _ _ s (E.put-obj (codes "natfiltering") (E.str mark) r.fields) (
          Returns-modify _ _ s (record {
            hosts =
                assign-AllValues (IsReadable E) host _ s.host_list (marked-IsReadable E mark text r)
                  h.hosts;
            probes = h.probes;
          })))

  filter_host-Fine :
      (host : Str) (s : Server J)
      → IsHealthy E s
      → Fine (filter_host E host (find host s.host_list)) s
  unfolding filter_host
  filter_host-Fine host s h = elim (Option-cases (find host s.host_list)) [
    | inl e ↦ rw e (Returns-pure (IsHealthy E) tt s h)
    | inr (text, e) ↦ rw e (
        mark_filtering-Fine is_filter host text s
          (find-AllValues (IsReadable E) host text s.host_list h.hosts e) h)
  ]

  expire_check-Fine :
      (id host : Str) (s : Server J)
      → IsHealthy E s
      → Fine (expire_check E id (codes "filtering") host) s
  unfolding expire_check str_eq if◌run◌else◌ erase_check
  expire_check-Fine id host s h = Returns-gets _ _ _ s (
      Returns-bind _ _ _ s (filter_host-Fine host s h) λ x t g.
        Returns-bind _ _ _ t
          (Returns-modify _ _ t (record {
            hosts = g.hosts;
            probes = erase-AllValues (IsEarly E) id t.f_ck_time_map g.probes;
          }))
          λ y u k. Returns-pure _ true u k)

  pub check_entry-Fine :
      (now : ℕ) (id key : Str) (s : Server J)
      → IsEarly E key
      → IsHealthy E s
      → Fine (check_entry E now id key) s
  check_entry-Fine now id key s p h =
      let (host, e) = head_of (E.split p.probe.node) (E.split-ne-nil p.probe.node) in
      let (a, t, f, g) : Fine
          (if is_late now (false, p.probe.now)
            run expire_check E id (codes "filtering") host
            else pure false)
          s =
        Returns-if _ (is_late now (false, p.probe.now)) _ _ s (λ q. expire_check-Fine id host s h)
          (λ q. Returns-pure _ false s h) in
      (
        a,
        t,
        rw (p.probe.shape) (
            check_entry-check_key E now id p.probe.now p.probe.ip p.probe.port p.probe.node host
              p.early p.probe.plain e s
            ∙ f),
        g,
      )

  pub sweep_checks-Fine :
      (now : ℕ) (checks : StdMap Str) (s : Server J)
      → AllEarly E checks
      → IsHealthy E s
      → Fine (sweep_checks E now checks) s
  unfolding sweep_checks
  sweep_checks-Fine now [] s p h = Returns-pure _ false s h
  sweep_checks-Fine now ((id, key) ∷ checks) s p h =
      Returns-bind _ _ _ s (check_entry-Fine now id key s p.0 h) λ one t g.
        Returns-bind _ _ _ t (sweep_checks-Fine now checks t p.1 g) λ more u k. Returns-pure _ _ u k
