-- ===== src/Server/Timeouts.antt =====
-- What a look at the time-map entry of a probe does, in time and late.
use nat.Prelude.{
  ℕ, ◌+◌, ◌≤◌, Str, codes, str_eq, int_max, ltb, some, true, false, ◌≡◌, refl, ◌∙◌, if◌then◌else◌,
  Bool-cases, inl, inr,
}
use nat.External.{Env, IsPlain, with_field}
use nat.StdMap.{StdMap, find, assign, erase}
use nat.Effect.{done, ◌>>=◌, if◌run◌else◌}
use nat.Server.State.{Server, with_hosts, with_checks, erase_check, assign_node}
use nat.Server.Detect.{check_key}
use nat.Server.Filtering.{mark_filtering}
use nat.Server.Timer.{is_late, is_filter, filter_host, expire_check, check_entry}
use nat.Server.CheckKey.{check_entry-check_key}

module _ {J : Type 0} (E : Env J) where
  module _ (id host : Str) (s : Server J) where
    expire_check-known :
        (text : Str) (fs : StdMap J)
        → find host s.host_list ≡ some text
        → E.parse text ≡ some (E.obj fs)
        → expire_check E id (codes "filtering") host s
          ≡ done true (
              with_checks (erase id s.f_ck_time_map) (
                with_hosts
                  (assign host
                    (E.dump (E.obj (with_field (codes "natfiltering") (E.str is_filter) fs)))
                    s.host_list)
                  s))
    unfolding expire_check filter_host mark_filtering erase_check assign_node with_checks with_hosts
        str_eq ◌>>=◌ if◌run◌else◌
    expire_check-known text fs known read =
        rw (known, filter_host, mark_filtering, read, E.put-obj) refl

  -- A look at the entry of a probe filed at `now`, a second that fits an `int`, of a node whose
  -- address and ID have no underscore and which is in the list with an object as its text: up to 20
  -- seconds later nothing happens. After that the node's text says "isFilter", the entry goes, and
  -- the nodes are to be notified.
  pub check_entry-timeout :
      (later : ℕ) (id : Str) (now : ℕ) (ip : Str) (port : ℕ) (node text : Str) (fs : StdMap J)
      (s : Server J)
      → now ≤ int_max
      → IsPlain ip
      → IsPlain node
      → find node s.host_list ≡ some text
      → E.parse text ≡ some (E.obj fs)
      → check_entry E later id (check_key now ip port node) s ≡ (
          if ltb (now + 20) later
          then done true (
              with_checks (erase id s.f_ck_time_map) (
                with_hosts
                  (assign node
                    (E.dump (E.obj (with_field (codes "natfiltering") (E.str is_filter) fs)))
                    s.host_list)
                  s))
          else done false s)
  unfolding is_late if◌run◌else◌ ◌>>=◌
  check_entry-timeout later id now ip port node text fs s early plain whole known read =
      check_entry-check_key E later id now ip port node node early plain
        (rw (E.split-plain node whole) refl) s
      ∙ elim (Bool-cases (ltb (now + 20) later)) [
        | inl late ↦ rw late (expire_check-known id node s text fs known read)
        | inr fresh ↦ rw fresh refl
      ]
