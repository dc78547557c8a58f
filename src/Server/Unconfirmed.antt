-- ===== src/Server/Unconfirmed.antt =====
-- A filtering probe that is answered, and expires all the same (server.cpp).
use nat.Prelude.{
  ℕ, ◌+◌, ◌≤◌, Str, codes, str_eq, str_eq_refl, int_max, ltb, none, some, true, false, ◌≡◌, refl,
  sym, ap, ◌∙◌,
}
use nat.External.{Env, IsPlain, with_field}
use nat.StdMap.{
  StdMap, find, has, insert, assign, erase, IsSorted, insert-IsSorted, find-insert, find-erase,
  find-assign,
}
use nat.Effect.{done, final}
use nat.Describe.{nonfilter}
use nat.Server.State.{Server, with_hosts, with_checks}
use nat.Server.Messages.{call_client_res_msg}
use nat.Server.Route.{update_route_info}
use nat.Server.Route.Recipients.{update_route_info-Addressed}
use nat.Server.Detect.{check_key, start_check}
use nat.Server.Filtering.{call_client_res}
use nat.Server.ProbeAnswer.{confirmed, call_client_res-confirms}
use nat.Server.ProbeIds.{probing, start_check-probing}
use nat.Server.Timer.{is_filter, check_entry}
use nat.Server.Timeouts.{check_entry-timeout}

module _ {J : Type 0} (E : Env J) where
  -- An object with the member `natfiltering` set, as a text and as it is.
  abbrev pub marked : Str → StdMap J → StdMap J
  marked filtering fs = with_field (codes "natfiltering") (E.str filtering) fs

  abbrev pub marked_text : Str → StdMap J → Str
  marked_text filtering fs = E.dump (E.obj (marked filtering fs))

  find-assign_known :
      (k old new : Str) (m : StdMap Str) → find k m ≡ some old → find k (assign k new m) ≡ some new
  find-assign_known k old new m h = find-assign k k new m ∙ rw (has, str_eq_refl k, h) refl

  find-insert_new : (k v : Str) (m : StdMap Str) → find k m ≡ none → find k (insert k v m) ≡ some v
  find-insert_new k v m h = find-insert k k v m ∙ rw (has, str_eq_refl k, h) refl

  -- The maps of a node that has read an answer and told the others.
  checks-confirmed :
      (node id : Str) (fs : StdMap J) (s u : Server J)
      → update_route_info E (confirmed E node id fs s) ≡ done tt u
      → (u.f_ck_time_map ≡ erase id s.f_ck_time_map)
        × (u.host_list ≡ assign node (marked_text nonfilter fs) s.host_list)
  unfolding confirmed with_checks with_hosts
  checks-confirmed node id fs s u h =
      let (to, a, e) = update_route_info-Addressed E (confirmed E node id fs s) u h in
      (ap (λ r. r.f_ck_time_map) e, ap (λ r. r.host_list) e)

  module _ (now : ℕ) (ip : Str) (port : ℕ) (node : Str) (s t : Server J)
      (sorted : IsSorted s.f_ck_time_map)
      (fresh : find (E.uuid (s.drawn + 1)) s.f_ck_time_map ≡ none)
      (started : start_check E now ip port node s ≡ done tt t) where
    filed-checks :
        t.f_ck_time_map ≡ insert (E.uuid (s.drawn + 1)) (check_key now ip port node) s.f_ck_time_map
    unfolding probing
    filed-checks =
        let (near_ip, near_port, e) = start_check-probing E now ip port node s t started in
        ap (λ r. r.f_ck_time_map) e

    find-left :
        (m : StdMap Str)
        → str_eq (E.uuid s.drawn) (E.uuid (s.drawn + 1)) ≡ false
        → m ≡ erase (E.uuid s.drawn) t.f_ck_time_map
        → find (E.uuid (s.drawn + 1)) m ≡ some (check_key now ip port node)
    find-left m apart e =
        rw (e, filed-checks)
          (find-erase (E.uuid s.drawn) (E.uuid (s.drawn + 1)) _ (
              insert-IsSorted (E.uuid (s.drawn + 1)) (check_key now ip port node) s.f_ck_time_map
                sorted)
            ∙ rw apart (find-insert_new _ _ s.f_ck_time_map fresh))

  -- A node starts a probe of another, at a second that fits an `int`, neither the address nor the
  -- ID of the other with an underscore in it, and the other in its list with an object as its text.
  -- The two UUIDs that it draws differ, and it has no probe under the second, its probes being in
  -- order. It gets the answer with the probe's ID, and the handling of that returns: it says
  -- "Nonfilter" of the other, and the entry that it filed stays all the same. A look at that entry
  -- more than 20 seconds after the start, with nothing in between, makes it say "isFilter" of the
  -- other.
  pub check_entry-answered :
      (now : ℕ) (ip : Str) (port : ℕ) (node : Str) (later : ℕ) (text nip : Str) (nport : ℕ)
      (fs : StdMap J) (s t u : Server J)
      → now ≤ int_max
      → IsPlain ip
      → IsPlain node
      → IsSorted s.f_ck_time_map
      → find (E.uuid (s.drawn + 1)) s.f_ck_time_map ≡ none
      → str_eq (E.uuid s.drawn) (E.uuid (s.drawn + 1)) ≡ false
      → start_check E now ip port node s ≡ done tt t
      → find node t.host_list ≡ some text
      → E.parse text ≡ some (E.obj fs)
      → call_client_res E (call_client_res_msg E node nip nport (E.uuid s.drawn)) t ≡ done tt u
      → ltb (now + 20) later ≡ true
      → (find node u.host_list ≡ some (marked_text nonfilter fs))
        × (find (E.uuid (s.drawn + 1)) u.f_ck_time_map ≡ some (check_key now ip port node))
        × (find node
              (final (
                check_entry E later
                  (E.uuid (s.drawn + 1))
                  (check_key now ip port node)
                  u)).host_list
            ≡ some (marked_text is_filter (marked nonfilter fs)))
  unfolding with_checks with_hosts
  check_entry-answered now ip port node later text nip nport fs s t u early plain whole sorted fresh
        apart started known read answered late =
      let (checks, hosts) = checks-confirmed node (E.uuid s.drawn) fs t u (
        sym (call_client_res-confirms E node (E.uuid s.drawn) nip text nport fs t known read)
        ∙ answered) in
      let said = ap (find node) hosts ∙ find-assign_known node text _ t.host_list known in
      let expired =
        check_entry-timeout E later (E.uuid (s.drawn + 1)) now ip port node _ (marked nonfilter fs)
          u early plain whole said (E.parse-dump (E.obj (marked nonfilter fs))) in
      (
        said,
        find-left now ip port node s t sorted fresh started u.f_ck_time_map apart checks,
        ap (λ r. find node (final {S = Server J} r).host_list) (rw late at expired)
            ∙ find-assign_known node _ _ u.host_list said,
      )
