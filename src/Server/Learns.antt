-- ===== src/Server/Learns.antt =====
-- How a node learns the endpoint that it is seen at (server.cpp): it sends a detect message, and the
-- update that answers has it.
use nat.Prelude.{
  ℕ, ◌<◌, ◌≤◌, ◌^◌, Str, codes, str_eq, str_eq_refl, str_eq_sound, to_string, Bool, some, true,
  false, List, ◌∷◌, ◌++◌, ◌≡◌, ◌≢◌, refl, sym, ap, ◌∙◌, Bool-cases, inl, inr, arith, length,
}
use nat.StdMap.{StdMap, find, has}
use nat.External.{Env}
use nat.Effect.{M, done, final, pure, require, ◌>>=◌, ◌>>◌, if◌run◌else◌}
use nat.Effect.Keeps.{
  Keeps, keeps, at_state, Keeps-resume, Keeps-bind, Keeps-require, Keeps-pure, Keeps-if,
  Keeps-modify,
}
use nat.Client.{Packet}
use nat.Server.State.{Server, add_node, send, start_receive}
use nat.Server.Messages.{detect_msg, update_msg, hosts_json, data_msg}
use nat.Server.Detect.{detect}
use nat.Server.Update.{Remote, update_items, take_own, take_update, update}
use nat.Server.Update.Keeps.{Keeps-update_items}
use nat.Server.Updated.{listed, find-listed}
use nat.Server.Strangers.{dispatched-update}
use nat.Server.Buffer.{handle_receive-parsed}
use nat.Server.Receive.{Datagram, no_error, buffer_size, handle_receive}
use nat.Server.Register.{detected}
use nat.Server.Told.{detect-told}

module _ {J : Type 0} (E : Env J) where
  Keeps-entries :
      (j : J) (sender : Str) (r : Remote) (entries : List (Str × J))
      → Keeps (λ s. s.local_ep_info ≡ j) (update_items E sender r entries)
  unfolding add_node send ◌>>=◌
  Keeps-entries j sender r entries =
      Keeps-update_items E (λ id info. keeps (λ s h. h)) (λ to at msg. keeps (λ s h. h))
        (λ s ns h. h) sender r entries

  -- What comes after the node's own entry has been taken.
  rest : Str → Remote → StdMap Str → M (Server J) Bool
  rest sender r hosts = do
    entries ← require (E.items (hosts_json E hosts))
    update_items E sender r entries
    pure true

  info-update :
      (rip : Str) (rport : ℕ) (sender : Str) (hosts : StdMap Str) (j : J) (s : Server J)
      → str_eq sender s.node_id ≡ false
      → find s.node_id hosts ≡ some (E.dump j)
      → (final (update E rip rport sender (update_msg E sender hosts) s)).local_ep_info ≡ j
  unfolding update take_update take_own rest update_msg hosts_json data_msg find str_eq ◌>>=◌
      if◌run◌else◌
  info-update rip rport sender hosts j s off own =
      rw
        (
          off,
          E.at-obj (codes "data") _ (E.obj (listed E hosts)) refl,
          E.find_field-obj,
          find-listed E s.node_id _ hosts own,
          E.get_string-str,
          E.parse-dump j,
        )
        (at_state
          (Keeps-bind _ _ (Keeps-require _) λ entries.
            Keeps-bind _ _ (Keeps-entries j sender (record { ip = rip; port = rport }) entries)
              λ x. Keeps-pure true)
          (record s { local_ep_info = j }) refl)

  info-handle_receive :
      (sender : Str) (hosts : StdMap Str) (j : J) (d : Datagram) (s : Server J)
      → d.bytes ≡ E.dump (update_msg E sender hosts)
      → length d.bytes ≤ buffer_size
      → d.ip ≢ s.local_ip
      → str_eq sender s.node_id ≡ false
      → find s.node_id hosts ≡ some (E.dump j)
      → (final (handle_receive E no_error d s)).local_ep_info ≡ j
  unfolding start_receive ◌>>=◌
  info-handle_receive sender hosts j d s same fits away off own =
      let deaf : Server J = record s { receiving = false } in
      ap (λ o. (final {S = Server J} {A = Unit {0}} o).local_ep_info)
        (handle_receive-parsed E d (update_msg E sender hosts) s same fits away)
      ∙ rw (dispatched-update E sender hosts d deaf) (
          Keeps-resume {P = λ r. r.local_ep_info ≡ j}
            (update E d.ip d.port sender (update_msg E sender hosts) deaf) _
            (info-update d.ip d.port sender hosts j deaf off own)
            (λ again. Keeps-if again _ _ (Keeps-modify _ (λ r h. h)) (Keeps-pure tt)))

  str_eq_sym : (a b : Str) → str_eq a b ≡ false → str_eq b a ≡ false
  str_eq_sym a b h = elim (Bool-cases (str_eq b a)) [
    | inl e ↦ absurd (ground (arith, ap (str_eq a) (str_eq_sound b a e) ∙ str_eq_refl a, h))
    | inr e ↦ e
  ]

  -- A node `b` is new to another, and that has handled its detect message, which came from `rip` and
  -- `rport`: then it has sent a datagram there with an update, and from that datagram, if it gets it
  -- whole and from another address than its own, `b` takes as its own description the one with `rip`
  -- and `rport` as its first endpoint, whether or not the rest of the handling fails.
  pub learns_endpoint :
      (now : ℕ) (rip : Str) (rport : ℕ) (ip : Str) (port : ℕ) (a t b : Server J) (d : Datagram)
      → port < 2 ^ 16
      → rport < 2 ^ 16
      → E.is_address rip ≡ true
      → str_eq b.node_id a.node_id ≡ false
      → has b.node_id a.host_list ≡ false
      → detect E now rip rport b.node_id (detect_msg E b.node_id ip (to_string port)) a ≡ done tt t
      → d.bytes ≡ E.dump (update_msg E a.node_id t.host_list)
      → length d.bytes ≤ buffer_size
      → d.ip ≢ b.local_ip
      → (pre : List Packet) × (post : List Packet) × (t.sent
          ≡ pre ++ record { ip = rip; port = rport; body = d.bytes } ∷ post)
        × ((final (handle_receive E no_error d b)).local_ep_info ≡ detected E rip rport ip port)
  learns_endpoint now rip rport ip port a t b d small rsmall valid ne new h same fits away =
      let (pre, post, sent, known) =
        detect-told E now rip rport b.node_id ip port a t small rsmall valid ne new h in
      (
        pre,
        post,
        sent ∙ ap (λ x. pre ++ record { ip = rip; port = rport; body = x } ∷ post) (sym same),
        info-handle_receive a.node_id t.host_list (detected E rip rport ip port) d b same fits away
            (str_eq_sym b.node_id a.node_id ne) known,
      )
