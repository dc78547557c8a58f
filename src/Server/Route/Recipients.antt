-- ===== src/Server/Route/Recipients.antt =====
-- Whom `updateRouteInfo` sends to.
use nat.Prelude.{
  ℕ, Str, str_eq, some, true, false, List, [], ◌∷◌, ◌++◌, ◌≡◌, sym, ap, ◌∙◌, Bool-cases, inl, inr,
  arith, if◌then◌else◌,
}
use nat.StdMap.{StdMap}
use nat.External.{Env}
use nat.Effect.{done, ◌>>=◌, if◌run◌else◌}
use nat.Effect.Yields.{>>=-eq-done, require-eq-done, pure-eq-done, modify-eq-done}
use nat.Describe.{node_ip, node_port}
use nat.Client.{Packet, send_to}
use nat.Server.State.{Server, send}
use nat.Server.Messages.{update_msg}
use nat.Server.Route.{notify, update_route_info}

module _ {J : Type 0} (E : Env J) where
  -- The endpoints of the nodes of the list other than `own`, in order. Each text is a node's.
  pub data Addressed (own : Str) : StdMap Str → List (Str × ℕ) → Type 0 where
    nobody : Addressed own [] []
    self :
        {k v : Str} {m : StdMap Str} {to : List (Str × ℕ)} (item : J)
        → str_eq k own ≡ true
        → E.parse v ≡ some item
        → Addressed own m to
        → Addressed own ((k, v) ∷ m) to
    other :
        {k v : Str} {m : StdMap Str} {to : List (Str × ℕ)} (item : J) (ip : Str) (port : ℕ)
        → str_eq k own ≡ false
        → E.parse v ≡ some item
        → node_ip E item ≡ some ip
        → node_port E item ≡ some port
        → Addressed own m to
        → Addressed own ((k, v) ∷ m) ((ip, port) ∷ to)

  -- One datagram to each endpoint with a valid address, after those sent before.
  unfoldable pub mailed : Str → List (Str × ℕ) → List Packet → List Packet
  mailed body [] out = out
  mailed body ((ip, port) ∷ to) out =
      let rest = mailed body to in
      if E.is_address ip
      then rest (out ++ record { ip = ip; port = port; body = body } ∷ [])
      else rest out

  pub mailed-send_to :
      (ip : Str) (port : ℕ) (body : Str) (to : List (Str × ℕ)) (out : List Packet)
      → mailed body ((ip, port) ∷ to) out ≡ mailed body to (send_to E ip port body out).1
  unfolding mailed send_to
  mailed-send_to ip port body to out = ground arith

  send-eq-done :
      (ip : Str) (port : ℕ) (msg : J) (s t : Server J)
      → send E ip port msg s ≡ done tt t
      → record s { sent = (send_to E ip port (E.dump msg) s.sent).1 } ≡ t
  unfolding send
  send-eq-done ip port msg s t h = modify-eq-done _ s t h

  extend :
      (ip : Str) (port : ℕ) (body : Str) (to : List (Str × ℕ)) (s r u t : Server J)
      → s ≡ r
      → record r { sent = (send_to E ip port body r.sent).1 } ≡ u
      → t ≡ record u { sent = mailed body to u.sent }
      → t ≡ record s { sent = mailed body ((ip, port) ∷ to) s.sent }
  extend ip port body to s r u t q p e =
      e
      ∙ ap {A = Server J} {B = Server J} (λ x. record x { sent = mailed body to x.sent }) (sym p)
      ∙ ap {A = Server J} {B = Server J}
          (λ x. record x { sent = mailed body to (send_to E ip port body x.sent).1 }) (sym q)
      ∙ ap {A = List Packet} {B = Server J} (λ o. record s { sent = o })
          (sym (mailed-send_to ip port body to s.sent))

  notify-Addressed :
      (msg : J) (own : Str) (m : StdMap Str) (s t : Server J)
      → notify E msg own m s ≡ done tt t
      → (to : List (Str × ℕ)) × Addressed own m to
        × (t ≡ record s { sent = mailed (E.dump msg) to s.sent })
  unfolding notify if◌run◌else◌
  notify-Addressed msg own [] s t h =
      ([], nobody, unfold mailed in sym (pure-eq-done tt s tt t h).1)
  notify-Addressed msg own ((k, v) ∷ m) s t h =
      let (item, s1, e1, h1) = >>=-eq-done _ _ s tt t h in
      let (x, s2, e2, h2) = >>=-eq-done _ _ s1 tt t h1 in
      let (p1, q1) = require-eq-done _ s item s1 e1 in
      let (to, a, e) = notify-Addressed msg own m s2 t h2 in
      elim (Bool-cases (str_eq k own)) [
        | inl same ↦
            let (p, q) = pure-eq-done tt s1 x s2 (rw same at e2) in
            (
              to,
              self item same p1 a,
              e
                  ∙ ap {A = Server J} {B = Server J}
                      (λ r. record r { sent = mailed (E.dump msg) to r.sent }) (sym (q1 ∙ q)),
            )
        | inr away ↦
            let (ip, s3, e3, h3) = >>=-eq-done _ _ s1 x s2 (rw away at e2) in
            let (port, s4, e4, h4) = >>=-eq-done _ _ s3 x s2 h3 in
            let (p3, q3) = require-eq-done _ s1 ip s3 e3 in
            let (p4, q4) = require-eq-done _ s3 port s4 e4 in
            (
              (ip, port) ∷ to,
              other item ip port away p1 p3 p4 a,
              extend ip port (E.dump msg) to s s4 s2 t (q1 ∙ q3 ∙ q4)
                  (send-eq-done ip port msg s4 s2 h4) e,
            )
      ]

  -- Where it returns, `updateRouteInfo` has read an endpoint from the text of every node of the list
  -- but the node itself, and has sent to each in key order one datagram, the update that holds the
  -- whole list; an endpoint with an invalid address is passed over, and nothing else changes.
  pub update_route_info-Addressed :
      (s t : Server J)
      → update_route_info E s ≡ done tt t
      → (to : List (Str × ℕ)) × Addressed s.node_id s.host_list to
        × (t ≡ record s { sent = mailed (E.dump (update_msg E s.node_id s.host_list)) to s.sent })
  unfolding update_route_info ◌>>=◌
  update_route_info-Addressed s t h =
      notify-Addressed (update_msg E s.node_id s.host_list) s.node_id s.host_list s t h
