-- ===== src/Server/Updated.antt =====
-- What an "update" that introduces public nodes makes its receiver do (`handleReceive`, server.cpp).
use nat.Prelude.{
  ℕ, Str, codes, str_eq, some, true, false, List, [], ◌∷◌, ◌≡◌, refl, sym, ◌∙◌, arith, map, All,
  All-map, Bool-cases, inl, inr,
}
use nat.External.{Env}
use nat.StdMap.{StdMap, find, insert, IsSorted, Above}
use nat.Effect.{done, ◌>>=◌, if◌run◌else◌}
use nat.Describe.{public_json}
use nat.Server.State.{Server}
use nat.Server.Messages.{hosts_json, data_msg, update_msg, open_connect_msg}
use nat.Server.Route.Recipients.{mailed, mailed-send_to}
use nat.Server.Update.{Remote, update_items, take_own, take_update, update}
use nat.Server.Introduced.{
  Entry, others, IsNew, IsNew-insert, public_text, table, met, update_item-other, update_item-own,
}

module _ {J : Type 0} (E : Env J) where
  -- The list as it stands in the message.
  abbrev pub listed : StdMap Str → List (Str × J)
  listed hosts = map (λ h. (h.0, E.str h.1)) hosts

  Above-listed : (k : Str) (hosts : StdMap Str) → Above k hosts → Above k (listed hosts)
  Above-listed k [] a = tt
  Above-listed k ((j, v) ∷ hosts) a = (a.0, Above-listed k hosts a.1)

  IsSorted-listed : (hosts : StdMap Str) → IsSorted hosts → IsSorted (listed hosts)
  IsSorted-listed [] s = tt
  IsSorted-listed ((k, v) ∷ hosts) s = (Above-listed k hosts s.0, IsSorted-listed hosts s.1)

  pub find-listed :
      (k text : Str) (hosts : StdMap Str)
      → find k hosts ≡ some text
      → find k (listed hosts) ≡ some (E.str text)
  unfolding find
  find-listed k text [] h = cc
  find-listed k text ((j, v) ∷ hosts) h = ground (arith, find-listed k text hosts)

  -- The state `t` after the entries.
  record Greeted (es : List Entry) (s t : Server J) : Type 0 where
    pub sent :
        t.sent
        ≡ mailed E
            (E.dump (open_connect_msg E s.node_id s.local_ep_info))
            (others s.node_id es)
            s.sent
    pub info : t.local_ep_info ≡ s.local_ep_info

  update_items-Greeted :
      (sender : Str) (r : Remote) (es : List Entry) (s : Server J)
      → All (IsNew s.node_id r.ip s.host_list) es
      → (t : Server J) × (update_items E sender r (listed (table E es)) s ≡ done tt t)
        × Greeted es s t
  unfolding update_items table others met mailed ◌>>=◌
  update_items-Greeted sender r [] s n = (s, refl, record { sent = refl; info = refl })
  update_items-Greeted sender r ((id, ip, port) ∷ es) s n =
      elim (Bool-cases (str_eq s.node_id id)) [
        | inl same ↦
            let text = public_text E ip port in
            let s' : Server J = record s {
              man_host = record { host_list = insert s.node_id text s.host_list };
            } in
            let (t, e, g) = update_items-Greeted sender r es s' (
              All-map (IsNew s.node_id r.ip s.host_list) (IsNew s.node_id r.ip s'.host_list)
                (IsNew-insert s.node_id r.ip text s.host_list) es n.1) in
            (
              t,
              rw (update_item-own E sender r (id, ip, port) s n.0 same) e,
              record { sent = rw same g.sent; info = g.info },
            )
        | inr ne ↦
            let (t, e, g) = update_items-Greeted sender r es (met E ip port s) n.1 in
            (
              t,
              rw (update_item-other E sender r (id, ip, port) s n.0 ne) e,
              record {
                sent =
                    rw ne (g.sent ∙ sym (mailed-send_to E ip port _ (others s.node_id es) s.sent));
                info = g.info;
              },
            )
      ]

  -- A node gets an update of another's that lists public nodes, itself among them: it takes what the
  -- list says of itself, and sends that in one "openconnect" to each of the others, in key order, those
  -- with invalid addresses passed over; then it is to listen again. Of the listed endpoints none has
  -- the address that the update comes from, and none, written as `ip_port`, is a key of the node's own
  -- list or its ID.
  pub update-others :
      (rip : Str) (rport : ℕ) (sender ip : Str) (port : ℕ) (es : List Entry) (s : Server J)
      → str_eq sender s.node_id ≡ false
      → IsSorted (table E es)
      → find s.node_id (table E es) ≡ some (public_text E ip port)
      → All (IsNew s.node_id rip s.host_list) es
      → (t : Server J) × (update E rip rport sender (update_msg E sender (table E es)) s
          ≡ done true t)
        × (t.local_ep_info ≡ public_json E ip port)
        × (t.sent
            ≡ mailed E
                (E.dump (open_connect_msg E s.node_id (public_json E ip port)))
                (others s.node_id es)
                s.sent)
  unfolding update take_update take_own update_msg hosts_json data_msg find str_eq ◌>>=◌
      if◌run◌else◌
  update-others rip rport sender ip port es s other sorted own n =
      let s' : Server J = record s { local_ep_info = public_json E ip port } in
      let (t, e, g) = update_items-Greeted sender (record { ip = rip; port = rport }) es s' n in
      (
        t,
        rw
            (
              other,
              E.at-obj (codes "data") _ (E.obj (listed (table E es))) refl,
              E.find_field-obj,
              find-listed s.node_id _ (table E es) own,
              E.get_string-str,
              E.parse-dump (public_json E ip port),
              E.items-obj _ (IsSorted-listed (table E es) sorted),
              e,
            )
            refl,
        g.info,
        g.sent,
      )
