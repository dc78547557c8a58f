-- ===== src/Server/Strangers.antt =====
-- An "update" that does not know its receiver.
use nat.Prelude.{
  ℕ, ◌≤◌, Str, codes, str_eq, none, some, [], ◌∷◌, ◌≡◌, ◌≢◌, false, refl, ◌∙◌, arith, length, map,
}
use nat.External.{Env}
use nat.StdMap.{StdMap, find}
use nat.Effect.{fails, undefined, ◌>>=◌, if◌run◌else◌}
use nat.Describe.{string_at}
use nat.Server.State.{Server}
use nat.Server.Messages.{hosts_json, data_msg, update_msg}
use nat.Server.Update.{take_own, take_update, update}
use nat.Server.Buffer.{handle_receive-parsed}
use nat.Server.Receive.{Datagram, no_error, buffer_size, dispatch, typed, parsed, handle_receive}

module _ {J : Type 0} (E : Env J) where
  find-map :
      (k : Str) (hosts : StdMap Str)
      → find k hosts ≡ none
      → find k (map (λ h. (h.0, E.str h.1)) hosts) ≡ none
  unfolding find
  find-map k [] h = refl
  find-map k ((j, v) ∷ hosts) h = ground (arith, find-map k hosts)

  take_own-missing :
      (own : Str) (hosts : StdMap Str) (s : Server J)
      → find own hosts ≡ none
      → take_own E (hosts_json E hosts) (E.find_field own (hosts_json E hosts)) s
        ≡ fails undefined s
  unfolding hosts_json take_own ◌>>=◌
  take_own-missing own hosts s h =
      rw (E.find_field-obj, find-map own hosts h, E.end_throws-obj) refl

  update-missing :
      (ip : Str) (port : ℕ) (node : Str) (hosts : StdMap Str) (s : Server J)
      → str_eq node s.node_id ≡ false
      → find s.node_id hosts ≡ none
      → update E ip port node (update_msg E node hosts) s ≡ fails undefined s
  unfolding update take_update update_msg data_msg find str_eq ◌>>=◌ if◌run◌else◌
  update-missing ip port node hosts s other h =
      rw
        (
          other,
          E.at-obj (codes "data") _ (hosts_json E hosts) refl,
          take_own-missing s.node_id hosts s h,
        )
        refl

  pub dispatched-update :
      (node : Str) (hosts : StdMap Str) (d : Datagram) (s : Server J)
      → parsed E d (some (update_msg E node hosts)) s
        ≡ update E d.ip d.port node (update_msg E node hosts) s
  unfolding parsed typed dispatch update_msg data_msg string_at find str_eq ◌>>=◌ if◌run◌else◌
  dispatched-update node hosts d s = rw (
    E.find_field-obj,
    E.get_string-str,
    E.at-obj (codes "nodeID") _ (E.str node) refl,
    E.get_string-str,
  )

  -- The update of another node, from another address than the receiver's, whose node list does not
  -- have the receiver's ID, leads to undefined behaviour: the log statement reads through `end()`.
  pub handle_receive-stranger :
      (node : Str) (hosts : StdMap Str) (d : Datagram) (s : Server J)
      → d.bytes ≡ E.dump (update_msg E node hosts)
      → length d.bytes ≤ buffer_size
      → d.ip ≢ s.local_ip
      → str_eq node s.node_id ≡ false
      → find s.node_id hosts ≡ none
      → handle_receive E no_error d s ≡ fails undefined (record s { receiving = false })
  unfolding ◌>>=◌
  handle_receive-stranger node hosts d s same fits away other missing =
      let deaf : Server J = record s { receiving = false } in
      handle_receive-parsed E d (update_msg E node hosts) s same fits away
      ∙ rw
          (
            dispatched-update node hosts d deaf,
            update-missing d.ip d.port node hosts deaf other missing,
          )
          refl
