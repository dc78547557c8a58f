-- ===== src/Server/Told.antt =====
-- Who hears of a newcomer: the newcomer itself (`handleReceive` and `updateRouteInfo`, server.cpp).
use nat.Prelude.{
  codes, ℕ, ◌<◌, ◌^◌, Str, str_eq, to_string, ◌&&◌, ◌==◌, some, true, false, List, [], ◌∷◌, ◌++◌,
  ◌≡◌, refl, sym, ap, subst, ◌∙◌, Bool-cases, inl, inr,
}
use nat.StdMap.{find, has}
use nat.External.{Env}
use nat.Effect.{done, final, ◌>>=◌, if◌run◌else◌}
use nat.Effect.Keeps.{keeps, at_state}
use nat.Effect.Yields.{>>=-eq-done}
use nat.Describe.{nonmap, nonfilter, endpoint_json, public_json, node_ip, node_port}
use nat.Client.{Packet}
use nat.Server.State.{
  Server, add_node, assign_node, erase_ticker, add_check, erase_check, send, gen_uuid,
}
use nat.Server.Messages.{detect_msg, update_msg}
use nat.Server.Route.{update_route_info}
use nat.Server.Route.Mailed.{mailed-has, Addressed-find}
use nat.Server.Route.Recipients.{mailed, update_route_info-Addressed}
use nat.Server.Detect.{mapped_json, detect_mapped, detect_public, detect}
use nat.Server.Moved.{node_ip-described, node_port-described}
use nat.Server.Register.{detected, detect-detect_msg, find-detect}
use nat.Server.Detect.Keeps.{Keeps-detect}
use nat.Server.Stable.{IsStable, listed}

module _ {J : Type 0} (E : Env J) where
  -- No handler changes the node's ID.
  module _ (now : ℕ) (ip : Str) (port : ℕ) (own : Str) where
    named : IsStable E (λ s. s.node_id ≡ own) now ip port
    unfolding add_node assign_node erase_ticker add_check erase_check send gen_uuid ◌>>=◌
    named = record {
      add = λ id info. keeps (λ s h. h);
      assign = λ id info. keeps (λ s h. h);
      sends = λ to at msg. keeps (λ s h. h);
      check = λ id node. keeps (λ s h. h);
      uncheck = λ id. keeps (λ s h. h);
      untick = λ key. keeps (λ s h. h);
      draw = keeps (λ s h. h);
      info = λ s j h. h;
      publics = λ s ns h. h;
    }

  node_id-detect :
      (now : ℕ) (rip : Str) (rport : ℕ) (node : Str) (msg : J) (s t : Server J)
      → detect E now rip rport node msg s ≡ done tt t
      → t.node_id ≡ s.node_id
  node_id-detect now rip rport node msg s t h =
      subst (λ r. r.node_id ≡ s.node_id) (ap final h)
        (at_state (Keeps-detect E (listed E (named now rip rport s.node_id)) node msg) s refl)

  -- The handling of a detect message ends with a route update.
  detect-routes :
      (now : ℕ) (rip : Str) (rport : ℕ) (node ip : Str) (port : ℕ) (s t : Server J)
      → port < 2 ^ 16
      → detect E now rip rport node (detect_msg E node ip (to_string port)) s ≡ done tt t
      → (u : Server J) × (update_route_info E u ≡ done tt t)
  unfolding detect_mapped detect_public if◌run◌else◌
  detect-routes now rip rport node ip port s t small h =
      let e = sym (detect-detect_msg E now rip rport node ip port s small) ∙ h in
      elim (Bool-cases (str_eq rip ip && rport == port)) [
        | inl same ↦
            let (a, s1, e1, h1) = >>=-eq-done _ _ s tt t (rw same at e) in
            let (b, s2, e2, h2) = >>=-eq-done _ _ s1 tt t h1 in (s2, h2)
        | inr off ↦
            let (a, s1, e1, h1) = >>=-eq-done _ _ s tt t (rw off at e) in
            let (b, s2, e2, h2) = >>=-eq-done _ _ s1 tt t h1 in
            let (c, s3, e3, h3) = >>=-eq-done _ _ s2 tt t h2 in (s3, h3)
      ]

  node_ip-detected :
      (rip : Str) (rport : ℕ) (ip : Str) (port : ℕ)
      → node_ip E (detected E rip rport ip port) ≡ some rip
  unfolding public_json mapped_json
  node_ip-detected rip rport ip port = elim (Bool-cases (str_eq rip ip && rport == port)) [
    | inl same ↦ rw same (node_ip-described E nonmap nonfilter rip rport [])
    | inr off ↦
        rw off (node_ip-described E (codes "mapping") [] rip rport (endpoint_json E ip port ∷ []))
  ]

  node_port-detected :
      (rip : Str) (rport : ℕ) (ip : Str) (port : ℕ)
      → rport < 2 ^ 16
      → node_port E (detected E rip rport ip port) ≡ some rport
  unfolding public_json mapped_json
  node_port-detected rip rport ip port small = elim (Bool-cases (str_eq rip ip && rport == port)) [
    | inl same ↦ rw same (node_port-described E nonmap nonfilter rip rport [] small)
    | inr off ↦
        rw off (
          node_port-described E (codes "mapping") [] rip rport (endpoint_json E ip port ∷ []) small)
  ]

  -- Where the handling of a newcomer's detect message returns, the node has sent its whole list, in an
  -- update, to the endpoint that the message came from, and under the newcomer's ID the list has that
  -- endpoint as the first one.
  pub detect-told :
      (now : ℕ) (rip : Str) (rport : ℕ) (node ip : Str) (port : ℕ) (s t : Server J)
      → port < 2 ^ 16
      → rport < 2 ^ 16
      → E.is_address rip ≡ true
      → str_eq node s.node_id ≡ false
      → has node s.host_list ≡ false
      → detect E now rip rport node (detect_msg E node ip (to_string port)) s ≡ done tt t
      → (pre : List Packet) × (post : List Packet) × (t.sent
          ≡ pre
            ++ record { ip = rip; port = rport; body = E.dump (update_msg E s.node_id t.host_list) }
              ∷ post)
        × (find node t.host_list ≡ some (E.dump (detected E rip rport ip port)))
  detect-told now rip rport node ip port s t small rsmall valid ne new h =
      let (u, e) = detect-routes now rip rport node ip port s t small h in
      let (to, a, whole) = update_route_info-Addressed E u t e in
      let hosts : t.host_list ≡ u.host_list = ap (λ r. r.host_list) whole in
      let name : u.node_id ≡ s.node_id =
        sym (ap (λ r. r.node_id) whole) ∙ node_id-detect now rip rport node _ s t h in
      let known : find node t.host_list ≡ some (E.dump (detected E rip rport ip port)) =
        find-detect E now rip rport node ip port s t small h ∙ rw new refl in
      let (before, after, between) =
        Addressed-find E u.node_id node u.host_list to _ (detected E rip rport ip port) rip rport a
          (ap (str_eq node) name ∙ ne) (sym (ap (find node) hosts) ∙ known)
          (E.parse-dump (detected E rip rport ip port)) (node_ip-detected rip rport ip port)
          (node_port-detected rip rport ip port rsmall) in
      let body : E.dump (update_msg E u.node_id u.host_list)
          ≡ E.dump (update_msg E s.node_id t.host_list) =
        λ i. E.dump (update_msg E (name i) (sym hosts i)) in
      let (pre, post, sent) =
        mailed-has E (E.dump (update_msg E u.node_id u.host_list)) rip rport before after u.sent
          valid in
      (
        pre,
        post,
        ap (λ r. r.sent) whole
            ∙ ap (λ l. mailed E (E.dump (update_msg E u.node_id u.host_list)) l u.sent) between
            ∙ sent
            ∙ ap (λ b. pre ++ record { ip = rip; port = rport; body = b } ∷ post) body,
        known,
      )
