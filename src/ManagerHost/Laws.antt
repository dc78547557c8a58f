-- ===== src/ManagerHost/Laws.antt =====
-- What the table's methods do.
use nat.Prelude.{
  Str, str_eq, some, Bool, true, false, not, ◌&&◌, [], ◌∷◌, ◌≡◌, ◌∙◌, if◌then◌else◌, Bool-cases,
  inl, inr, arith,
}
use nat.StdMap.{StdMap, find, has, find-insert}
use nat.External.{Env}
use nat.Effect.{done, if◌run◌else◌}
use nat.Effect.Yields.{>>=-eq-done, require-eq-done, pure-eq-done}
use nat.Describe.{is_public}
use nat.ManagerHost.{ManagerHost, add_new_node, get_public_node, public_node_of}

-- `addNewNode` records a node that is new, leaves the text of one that is there, and changes no other.
pub find-add_new_node :
    (id j info : Str) (m : ManagerHost)
    → find j (add_new_node id info m).1.host_list
      ≡ (if str_eq id j && not (has id m.host_list) then some info else find j m.host_list)
unfolding add_new_node
find-add_new_node id j info m = find-insert id j info m.host_list

module _ {J : Type 0} (E : Env J) where
  -- The text of the first node of the list that is public and is not `id`; the empty text if there is
  -- none.
  pub data FirstPublic (id : Str) : StdMap Str → Str → Type 0 where
    nobody : FirstPublic id [] []
    pick :
        {k v : Str} {m : StdMap Str} (node : J)
        → E.parse v ≡ some node
        → is_public E node ≡ some true
        → str_eq id k ≡ false
        → FirstPublic id ((k, v) ∷ m) v
    skip :
        {k v t : Str} {m : StdMap Str} (node : J) (open_node : Bool)
        → E.parse v ≡ some node
        → is_public E node ≡ some open_node
        → (open_node && not (str_eq id k)) ≡ false
        → FirstPublic id m t
        → FirstPublic id ((k, v) ∷ m) t

  both_true : (a b : Bool) → (a && not b) ≡ true → (a ≡ true) × (b ≡ false)
  both_true a b h = ground arith

  FirstPublic-public_node_of :
      {S : Type 0} (id : Str) (m : StdMap Str) (s u : S) (t : Str)
      → public_node_of E id m s ≡ done t u
      → (s ≡ u) × FirstPublic id m t
  unfolding public_node_of if◌run◌else◌
  FirstPublic-public_node_of id [] s u t h =
      let (p, q) = pure-eq-done [] s t u h in (q, rw (← p) nobody)
  FirstPublic-public_node_of id ((k, v) ∷ m) s u t h =
      let (node, s1, e1, h1) = >>=-eq-done _ _ s t u h in
      let (open_node, s2, e2, h2) = >>=-eq-done _ _ s1 t u h1 in
      let (p1, q1) = require-eq-done _ s node s1 e1 in
      let (p2, q2) = require-eq-done _ s1 open_node s2 e2 in
      elim (Bool-cases (open_node && not (str_eq id k))) [
        | inl found ↦
            let (p, q) = pure-eq-done v s2 t u (rw found at h2) in
            let (a, b) = both_true open_node (str_eq id k) found in
            (q1 ∙ q2 ∙ q, rw (← p) (pick node p1 (rw a at p2) b))
        | inr other ↦
            let (q, rest) = FirstPublic-public_node_of id m s2 u t (rw other at h2) in
            (q1 ∙ q2 ∙ q, skip node open_node p1 p2 other rest)
      ]

  -- Where it returns, `getPublicNode` has changed nothing and found the first public node in key
  -- order other than the given one, or the empty text if there is no such node.
  pub get_public_node-FirstPublic :
      {S : Type 0} (id : Str) (m : ManagerHost) (s u : S) (t : Str)
      → get_public_node E id m s ≡ done t u
      → (s ≡ u) × FirstPublic id m.host_list t
  unfolding get_public_node
  get_public_node-FirstPublic id m s u t h = FirstPublic-public_node_of id m.host_list s u t h
