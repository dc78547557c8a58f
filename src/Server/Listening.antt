-- ===== src/Server/Listening.antt =====
-- When a node listens again after a datagram.
use nat.Prelude.{
  ℕ, Str, codes, str_eq, str_eq_sound, Option, none, some, Bool, true, false, not, ◌&&◌, ◌≡◌, ◌≢◌,
  refl, ap, subst, ◌∙◌, arith, if◌then◌else◌, Bool-cases, inl, inr,
}
use nat.External.{Env}
use nat.Effect.{M, done, final, pure, ◌>>=◌, if◌run◌else◌}
use nat.Effect.Keeps.{keeps, at_state}
use nat.Effect.Yields.{
  Yields, at_return, Yields-pure, Yields-if, Yields-unless, >>=-eq-done, require-eq-done,
  gets-eq-done, modify-eq-done, returned, yields_rules,
}
use nat.Describe.{string_at}
use nat.Server.State.{
  Server, add_node, assign_node, erase_ticker, add_check, erase_check, send, gen_uuid,
  start_receive,
}
use nat.Server.Stable.{IsStable, Keeps-body}
use nat.Server.Update.{update, take_update}
use nat.Server.Receive.{
  Datagram, RecvError, no_error, message_size, other_error, then_listen, dispatch, typed, parsed,
  body, recv_buffer, handle_receive,
}

module _ {J : Type 0} (E : Env J) where
  -- The type and the node ID of a message that has both.
  pair_of : Option Str → Option Str → Option (Str × Str)
  pair_of (some a) (some b) = some (a, b)
  pair_of _ _ = none

  header_of : J → Option J → Option (Str × Str)
  header_of msg none = none
  header_of msg (some t) = pair_of (E.get_string t) (string_at E (codes "nodeID") msg)

  header : Option J → Option (Str × Str)
  header none = none
  header (some msg) = header_of msg (E.find_field (codes "msgtype") msg)

  own_header : Str → Option (Str × Str) → Bool
  own_header own none = false
  own_header own (some (msgtype, node)) = str_eq msgtype (codes "update") && str_eq node own

  -- An "update" message with the node's own ID, from another address than its own.
  unfoldable pub is_own_update : Datagram → Server J → Bool
  unfolding own_header header header_of pair_of
  is_own_update d s =
      not (str_eq d.ip s.local_ip) && own_header s.node_id (header (E.parse (recv_buffer d.bytes)))

  Yields-then_listen : (m : M (Server J) (Unit {0})) → Yields true (then_listen E m)
  unfolding then_listen
  Yields-then_listen m = search yields_rules

  Yields-dispatch :
      (d : Datagram) (msgtype node : Str) (msg : J)
      → str_eq msgtype (codes "update") ≡ false
      → Yields true (dispatch E d msgtype node msg)
  unfolding dispatch
  Yields-dispatch d msgtype node msg h =
      Yields-if _ _ _ (Yields-then_listen _)
        (Yields-unless _ _ _ h (search (yields_rules, Yields-then_listen) depth 20))

  Yields-take_update :
      (ip : Str) (port : ℕ) (node own : Str) (msg : J)
      → Yields true (take_update E ip port node own msg)
  unfolding take_update
  Yields-take_update ip port node own msg = search yields_rules depth 12

  -- `update` stops the handler at an update of the node's own, and nowhere else.
  update-flag :
      (ip : Str) (port : ℕ) (node : Str) (msg : J) (s u : Server J) (b : Bool)
      → update E ip port node msg s ≡ done b u
      → b ≡ not (str_eq node s.node_id)
  unfolding update if◌run◌else◌
  update-flag ip port node msg s u b h =
      let (own, s1, e1, h1) = >>=-eq-done _ _ s b u h in
      let (p, q) = gets-eq-done _ s own s1 e1 in
      elim (Bool-cases (str_eq node own)) [
        | inl same ↦ rw (p, same) (at_return Yields-pure s1 b u (rw same at h1))
        | inr other ↦
            rw (p, other)
              (returned _ s1 b u (rw other at h1) (Yields-take_update ip port node own msg))
      ]

  dispatch-flag :
      (d : Datagram) (msgtype node : Str) (msg : J) (s u : Server J) (b : Bool)
      → dispatch E d msgtype node msg s ≡ done b u
      → b ≡ not (own_header s.node_id (some (msgtype, node)))
  unfolding own_header
  dispatch-flag d msgtype node msg s u b h = elim (Bool-cases (str_eq msgtype (codes "update"))) [
    | inl is ↦
        let e = str_eq_sound msgtype (codes "update") is in
        rw is (
          update-flag d.ip d.port node msg s u b (unfold dispatch if◌run◌else◌ str_eq in rw e at h))
    | inr other ↦ rw other (at_return (Yields-dispatch d msgtype node msg other) s b u h)
  ]

  typed-flag :
      (d : Datagram) (msg : J) (o : Option J) (s u : Server J) (b : Bool)
      → typed E d msg o s ≡ done b u
      → b ≡ not (own_header s.node_id (header_of msg o))
  unfolding typed header_of pair_of
  typed-flag d msg none s u b h = unfold own_header in at_return Yields-pure s b u h
  typed-flag d msg (some t) s u b h =
      let (ty, s1, e1, h1) = >>=-eq-done _ _ s b u h in
      let (node, s2, e2, h2) = >>=-eq-done _ _ s1 b u h1 in
      let (r1, q1) = require-eq-done _ s ty s1 e1 in
      let (r2, q2) = require-eq-done _ s1 node s2 e2 in
      rw (r1, r2, q1, q2) (dispatch-flag d ty node msg s2 u b h2)

  parsed-flag :
      (d : Datagram) (o : Option J) (s u : Server J) (b : Bool)
      → parsed E d o s ≡ done b u
      → b ≡ not (own_header s.node_id (header o))
  unfolding parsed header
  parsed-flag d none s u b h = unfold own_header in at_return Yields-pure s b u h
  parsed-flag d (some msg) s u b h = typed-flag d msg _ s u b h

  body-flag :
      (d : Datagram) (s u : Server J) (b : Bool)
      → body E d s ≡ done b u
      → b ≡ not (is_own_update d s)
  unfolding body is_own_update if◌run◌else◌
  body-flag d s u b h =
      let (own, s1, e1, h1) = >>=-eq-done _ _ s b u h in
      let (p, q) = gets-eq-done _ s own s1 e1 in
      elim (Bool-cases (str_eq d.ip own)) [
        | inl same ↦ rw (p, same) (at_return Yields-pure s1 b u (rw same at h1))
        | inr other ↦ rw (p, other, q) (parsed-flag d _ s1 u b (rw other at h1))
      ]

  IsDeaf : Server J → Type 0
  IsDeaf s = s.receiving ≡ false

  IsDeaf-IsStable : (now : ℕ) (ip : Str) (port : ℕ) → IsStable E IsDeaf now ip port
  unfolding IsDeaf add_node assign_node erase_ticker add_check erase_check send gen_uuid ◌>>=◌
  IsDeaf-IsStable now ip port = record {
    add = λ id info. keeps (λ s h. h);
    assign = λ id info. keeps (λ s h. h);
    sends = λ to at msg. keeps (λ s h. h);
    check = λ id node. keeps (λ s h. h);
    uncheck = λ id. keeps (λ s h. h);
    untick = λ key. keeps (λ s h. h);
    draw = keeps (λ s h. h);
    info = λ s j h. h;
    publics = λ s ns h. h;
  }

  listen-receiving :
      (again : Bool) (s t : Server J)
      → s.receiving ≡ false
      → (if again run start_receive else pure tt) s ≡ done tt t
      → t.receiving ≡ again
  unfolding start_receive ◌>>=◌
  listen-receiving true s t h e = ground arith
  listen-receiving false s t h e = ground arith

  -- The handler where it takes the datagram.
  listens :
      (d : Datagram) (s t : Server J)
      → handle_receive E no_error d s ≡ done tt t
      → t.receiving ≡ not (is_own_update d s)
  unfolding handle_receive IsDeaf
  listens d s t e =
      let (x, s1, e1, h1) = >>=-eq-done _ _ s tt t e in
      let (again, s2, e2, h2) = >>=-eq-done _ _ s1 tt t h1 in
      let p : record s { receiving = false } ≡ s1 = modify-eq-done _ s s1 e1 in
      let f = body-flag d s1 s2 again e2 in
      let deaf : s1.receiving ≡ false = subst (λ r. r.receiving ≡ false) p refl in
      let still = at_state (Keeps-body E d (IsDeaf-IsStable d.now d.ip d.port)) s1 deaf in
      listen-receiving again s2 t (rw (ap final e2) at still) h2
      ∙ f
      ∙ subst (λ r. not (is_own_update d r) ≡ not (is_own_update d s)) p
          (unfold is_own_update in refl)

  -- When the handling of a datagram that was received without an error, or cut short, has returned,
  -- the node waits for the next one, unless the datagram was an update with the node's own ID from
  -- another address than the node's: then it does not wait for one.
  pub receiving-handle_receive :
      (err : RecvError) (d : Datagram) (s t : Server J)
      → err ≢ other_error
      → handle_receive E err d s ≡ done tt t
      → t.receiving ≡ not (is_own_update d s)
  unfolding handle_receive
  receiving-handle_receive other_error d s t h e = absurd (h refl)
  receiving-handle_receive no_error d s t h e = listens d s t e
  receiving-handle_receive message_size d s t h e = listens d s t e
