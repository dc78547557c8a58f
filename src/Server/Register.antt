-- ===== src/Server/Register.antt =====
-- What a "detect" (server.cpp) leaves in the node list.
use nat.Prelude.{
  ℕ, ◌^◌, ◌<◌, Str, codes, str_eq, str_eq_refl, str_eq_sound, Option-cases, ◌==◌, not, ◌||◌, ◌&&◌,
  to_string, Bool, true, false, some, ◌≡◌, refl, sym, ap, ◌∙◌, if◌then◌else◌, Bool-cases, inl, inr,
}
use nat.External.{Env}
use nat.StdMap.{StdMap, find, has, insert, find-insert}
use nat.Effect.{done, ◌>>=◌, if◌run◌else◌}
use nat.Effect.Yields.{>>=-eq-done, gets-eq-done, modify-eq-done}
use nat.Describe.{string_at, public_json}
use nat.Server.State.{Server, add_node}
use nat.ManagerHost.{add_new_node}
use nat.Server.Messages.{detect_msg, data_msg, local_json}
use nat.Server.Route.{update_route_info}
use nat.Server.Route.Recipients.{update_route_info-Addressed}
use nat.Server.ProbeIds.{probing, start_check-probing}
use nat.Server.Detect.{mapped_json, add_self, start_check, detect_mapped, detect_public, detect}

module _ {J : Type 0} (E : Env J) where
  add_node-done :
      (id info : Str) (s t : Server J)
      → add_node id info s ≡ done tt t
      → insert id info s.host_list ≡ t.host_list
  unfolding add_node add_new_node
  add_node-done id info s t h = ap (λ r. r.host_list) (modify-eq-done _ s t h)

  add_self-done :
      (s t : Server J)
      → add_self E s ≡ done tt t
      → (info : Str) × (insert s.node_id info s.host_list ≡ t.host_list)
  unfolding add_self
  add_self-done s t h =
      let (own, s1, e1, h1) = >>=-eq-done _ _ s tt t h in
      let (ip, s2, e2, h2) = >>=-eq-done _ _ s1 tt t h1 in
      let (port, s3, e3, h3) = >>=-eq-done _ _ s2 tt t h2 in
      let (o, q1) = gets-eq-done _ s own s1 e1 in
      let same : s ≡ s3 = q1 ∙ (gets-eq-done _ s1 ip s2 e2).1 ∙ (gets-eq-done _ s2 port s3 e3).1 in
      let info : Str = E.dump (public_json E ip port) in
      (
        info,
        ap (λ k. insert k info s.host_list) o
            ∙ ap (λ r. insert own info r.host_list) same
            ∙ add_node-done own info s3 t h3,
      )

  update_route_info-done :
      (s t : Server J) → update_route_info E s ≡ done tt t → s.host_list ≡ t.host_list
  update_route_info-done s t h =
      let (to, a, e) = update_route_info-Addressed E s t h in sym (ap (λ r. r.host_list) e)

  start_check-done :
      (now : ℕ) (ip : Str) (port : ℕ) (node : Str) (s t : Server J)
      → start_check E now ip port node s ≡ done tt t
      → s.host_list ≡ t.host_list
  unfolding probing
  start_check-done now ip port node s t h =
      let (near_ip, near_port, e) = start_check-probing E now ip port node s t h in
      sym (ap (λ r. r.host_list) e)

  pub find-insert_self :
      (k info : Str) (m : StdMap Str)
      → find k (insert k info m) ≡ (if has k m then find k m else some info)
  find-insert_self k info m = find-insert k k info m ∙ (elim (Bool-cases (has k m)) [
    | inl e ↦ rw (str_eq_refl k, e) refl
    | inr e ↦ rw (str_eq_refl k, e) refl
  ])

  has-insert_self : (k info : Str) (m : StdMap Str) → has k (insert k info m) ≡ true
  has-insert_self k info m =
      rw (has, find-insert_self k info m)
        (elim (Option-cases (find k m)) [
          | inl e ↦ rw (has, e) refl
          | inr (v, e) ↦ rw (has, e) refl
        ])

  -- Two insertions: the second leaves the key of the first.
  find-insert_twice :
      (k own info other : Str) (m : StdMap Str)
      → find k (insert own other (insert k info m)) ≡ (if has k m then find k m else some info)
  find-insert_twice k own info other m =
      find-insert own k other (insert k info m) ∙ (elim (Bool-cases (str_eq own k)) [
        | inl e ↦ rw (e, str_eq_sound own k e, has-insert_self k info m) (find-insert_self k info m)
        | inr e ↦ rw e (find-insert_self k info m)
      ])

  -- The node's description: behind a NAT, where the datagram came from and what the node says of
  -- itself; else what it says, as a public node.
  abbrev pub detected : Str → ℕ → Str → ℕ → J
  detected remote_ip remote_port ip port =
      if str_eq remote_ip ip && remote_port == port
      then public_json E remote_ip remote_port
      else mapped_json E remote_ip remote_port ip port

  detect_mapped-done :
      (now : ℕ) (rip : Str) (rport : ℕ) (node ip : Str) (port : ℕ) (s t : Server J)
      → detect_mapped E now rip rport node ip port s ≡ done tt t
      → find node t.host_list ≡ (
          if has node s.host_list
          then find node s.host_list
          else some (E.dump (mapped_json E rip rport ip port)))
  unfolding detect_mapped
  detect_mapped-done now rip rport node ip port s t h =
      let (a, s1, e1, h1) = >>=-eq-done _ _ s tt t h in
      let (b, s2, e2, h2) = >>=-eq-done _ _ s1 tt t h1 in
      let (c, s3, e3, h3) = >>=-eq-done _ _ s2 tt t h2 in
      let (other, m2) = add_self-done s1 s2 e2 in
      let m1 = add_node-done node _ s s1 e1 in
      let m4 = start_check-done now rip rport node s2 s3 e3 ∙ update_route_info-done s3 t h3 in
      ap (find node) (sym (ap (insert s1.node_id other) m1 ∙ m2 ∙ m4))
      ∙ find-insert_twice node s1.node_id _ other s.host_list

  detect_public-done :
      (rip : Str) (rport : ℕ) (node : Str) (s t : Server J)
      → detect_public E rip rport node s ≡ done tt t
      → find node t.host_list ≡ (
          if has node s.host_list
          then find node s.host_list
          else some (E.dump (public_json E rip rport)))
  unfolding detect_public
  detect_public-done rip rport node s t h =
      let (a, s1, e1, h1) = >>=-eq-done _ _ s tt t h in
      let (b, s2, e2, h2) = >>=-eq-done _ _ s1 tt t h1 in
      let (other, m2) = add_self-done s1 s2 e2 in
      let m1 = add_node-done node _ s s1 e1 in
      let m4 = update_route_info-done s2 t h2 in
      ap (find node) (sym (ap (insert s1.node_id other) m1 ∙ m2 ∙ m4))
      ∙ find-insert_twice node s1.node_id _ other s.host_list

  not-and : (a b : Bool) → (not a || not b) ≡ not (a && b)
  not-and true b = refl
  not-and false b = refl

  -- What the handler reads of a detect message.
  pub detect-detect_msg :
      (now : ℕ) (rip : Str) (rport : ℕ) (node ip : Str) (port : ℕ) (s : Server J)
      → port < 2 ^ 16
      → detect E now rip rport node (detect_msg E node ip (to_string port)) s
        ≡ (if not (str_eq rip ip && rport == port)
              run detect_mapped E now rip rport node ip port
              else detect_public E rip rport node)
            s
  unfolding detect detect_msg data_msg local_json string_at find str_eq ◌>>=◌
  detect-detect_msg now rip rport node ip port s small =
      rw
        (
          E.at-obj (codes "data") _ (local_json E ip (to_string port)) refl,
          E.at-obj (codes "localip") _ (E.str ip) refl,
          E.get_string-str,
          E.at-obj (codes "localport") _ (E.str (to_string port)) refl,
          E.get_string-str,
          E.lexical_cast-to_string port small,
          not-and (str_eq rip ip) (rport == port),
        )
        refl

  -- Where the handling of a detect message returns, the node list has an entry for the sender. It is
  -- the one that was there; else it is the endpoint that the datagram came from, as that of a public
  -- node if the message gives the same endpoint, and as that of a node behind a NAT if not.
  pub find-detect :
      (now : ℕ) (rip : Str) (rport : ℕ) (node ip : Str) (port : ℕ) (s t : Server J)
      → port < 2 ^ 16
      → detect E now rip rport node (detect_msg E node ip (to_string port)) s ≡ done tt t
      → find node t.host_list ≡ (
          if has node s.host_list
          then find node s.host_list
          else some (E.dump (detected rip rport ip port)))
  unfolding if◌run◌else◌
  find-detect now rip rport node ip port s t small h =
      let e = sym (detect-detect_msg now rip rport node ip port s small) ∙ h in
      elim (Bool-cases (str_eq rip ip && rport == port)) [
        | inl same ↦ rw same (detect_public-done rip rport node s t (rw same at e))
        | inr other ↦ rw other (detect_mapped-done now rip rport node ip port s t (rw other at e))
      ]
