-- ===== src/Server/Route/Mailed.antt =====
-- The datagrams of `updateRouteInfo` (server.cpp), one by one.
use nat.Prelude.{
  ℕ, Str, str_eq, str_eq_sound, some, true, false, List, [], ◌∷◌, ◌++◌, ◌≡◌, sym, ap, subst, ◌∙◌,
  Bool-cases, inl, inr, arith,
}
use mathlib.Core.List.{append_assoc, append-nil}
use nat.StdMap.{StdMap, find}
use nat.External.{Env}
use nat.Describe.{node_ip, node_port}
use nat.Client.{Packet}
use nat.Server.Route.Recipients.{Addressed, nobody, self, other, mailed}

module _ {J : Type 0} (E : Env J) where
  mailed-extends :
      (body : Str) (to : List (Str × ℕ)) (out : List Packet)
      → (post : List Packet) × (mailed E body to out ≡ out ++ post)
  unfolding mailed
  mailed-extends body [] out = ([], sym (append-nil out))
  mailed-extends body ((ip, port) ∷ to) out = elim (Bool-cases (E.is_address ip)) [
    | inl valid ↦
        let p : Packet = record { ip = ip; port = port; body = body } in
        let (post, e) = mailed-extends body to (out ++ p ∷ []) in
        (p ∷ post, rw valid (e ∙ append_assoc out (p ∷ []) post))
    | inr invalid ↦ let (post, e) = mailed-extends body to out in (post, rw invalid e)
  ]

  pub mailed-has :
      (body ip : Str) (port : ℕ) (before after : List (Str × ℕ)) (out : List Packet)
      → E.is_address ip ≡ true
      → (pre : List Packet) × (post : List Packet) × (mailed E body
            (before ++ (ip, port) ∷ after)
            out
          ≡ pre ++ record { ip = ip; port = port; body = body } ∷ post)
  unfolding mailed
  mailed-has body ip port [] after out valid =
      let p : Packet = record { ip = ip; port = port; body = body } in
      let (post, e) = mailed-extends body after (out ++ p ∷ []) in
      (out, post, rw valid (e ∙ append_assoc out (p ∷ []) post))
  mailed-has body ip port ((i, q) ∷ before) after out valid = elim (Bool-cases (E.is_address i)) [
    | inl e ↦
        let (pre, post, h) =
          mailed-has body ip port before after
            (out ++ record { ip = i; port = q; body = body } ∷ []) valid in
        (pre, post, rw e h)
    | inr e ↦
        let (pre, post, h) = mailed-has body ip port before after out valid in (pre, post, rw e h)
  ]

  some_inj : {A : Type 0} {a b : A} → some a ≡ some b → a ≡ b
  some_inj e = cc

  -- A node of the list is among those that its texts address.
  pub Addressed-find :
      (own b : Str) (hosts : StdMap Str) (to : List (Str × ℕ)) (v : Str) (item : J) (ip : Str)
      (port : ℕ)
      → Addressed E own hosts to
      → str_eq b own ≡ false
      → find b hosts ≡ some v
      → E.parse v ≡ some item
      → node_ip E item ≡ some ip
      → node_port E item ≡ some port
      → (before : List (Str × ℕ)) × (after : List (Str × ℕ)) × (to ≡ before ++ (ip, port) ∷ after)
  unfolding find
  Addressed-find own b [] to v item ip port nobody ne f p i q = cc
  Addressed-find own b ((k, w) ∷ hosts) to v item ip port (self j e r a) ne f p i q =
      elim (Bool-cases (str_eq k b)) [
        | inl same ↦
            absurd (ground (arith, subst (λ x. str_eq x own ≡ true) (str_eq_sound k b same) e, ne))
        | inr off ↦ Addressed-find own b hosts to v item ip port a ne (rw off at f) p i q
      ]
  Addressed-find own b ((k, w) ∷ hosts) ((ip', port') ∷ to) v item ip port
        (other j ip'' port'' e r i' q' a) ne f p i q =
      elim (Bool-cases (str_eq k b)) [
        | inl same ↦
            let text = some_inj (rw same at f) in
            let read = some_inj (sym r ∙ ap E.parse text ∙ p) in
            let at_ip = some_inj (sym i' ∙ ap (node_ip E) read ∙ i) in
            let at_port = some_inj (sym q' ∙ ap (node_port E) read ∙ q) in
            ([], to, ap (λ h. h ∷ to) (λ t. (at_ip t, at_port t)))
        | inr off ↦
            let (before, after, h) =
              Addressed-find own b hosts to v item ip port a ne (rw off at f) p i q in
            ((ip', port') ∷ before, after, ap (λ l. (ip', port') ∷ l) h)
      ]
