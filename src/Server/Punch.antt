-- ===== src/Server/Punch.antt =====
-- A hole punch from end to end: "proxyconnect" at a public node, and its "helpconnect" at the node
-- that is asked for.
use nat.Prelude.{
  ℕ, ◌^◌, ◌<◌, ◌≤◌, Str, codes, str_eq, some, List, [], ◌∷◌, ◌++◌, ◌≡◌, ◌≢◌, refl, sym, ap, ◌∙◌,
  arith, length, Bool-cases, inl, inr, true, false,
}
use nat.External.{Env}
use nat.StdMap.{find}
use nat.Effect.{done, final, ◌>>=◌, if◌run◌else◌}
use nat.Effect.Yields.{>>=-eq-done, require-eq-done, gets-eq-done, modify-eq-done}
use nat.Client.{Packet, send_to}
use nat.Describe.{endpoint_json, string_at, port_at, first_endpoint, node_ip, node_port}
use nat.Server.State.{Server, send, send_thrice, start_receive}
use nat.Server.Messages.{help_connect_msg, open_connect_msg}
use nat.Server.Connect.{help_body, proxy_connect, help_connect}
use nat.Server.Buffer.{handle_receive-parsed}
use nat.Server.Receive.{
  Datagram, no_error, buffer_size, then_listen, dispatch, typed, parsed, handle_receive,
}

module _ {J : Type 0} (E : Env J) where
  module _ (mapping filtering : J) (ip : Str) (port : ℕ) where
    node_ip-help_body : node_ip E (help_body E mapping filtering ip port) ≡ some ip
    unfolding node_ip first_endpoint string_at help_body endpoint_json find str_eq
    node_ip-help_body = rw (
      E.at-obj (codes "endpoint") _ (E.arr (endpoint_json E ip port ∷ [])) refl,
      E.first-arr,
      E.at-obj (codes "ip") _ (E.str ip) refl,
      E.get_string-str,
    )

    node_port-help_body :
        port < 2 ^ 16 → node_port E (help_body E mapping filtering ip port) ≡ some port
    unfolding node_port first_endpoint port_at help_body endpoint_json find str_eq
    node_port-help_body h =
        rw
          (
            E.at-obj (codes "endpoint") _ (E.arr (endpoint_json E ip port ∷ [])) refl,
            E.first-arr,
            E.at-obj (codes "port") _ (E.num port) refl,
            E.get_port-num,
          )
          (ground arith)

    help_connect-help_body :
        (own : Str) (t : Server J)
        → port < 2 ^ 16
        → help_connect E (help_connect_msg E own (help_body E mapping filtering ip port)) t
          ≡ send_thrice E ip port (open_connect_msg E t.node_id t.local_ep_info) t
    unfolding help_connect help_connect_msg find str_eq ◌>>=◌
    help_connect-help_body own t h = rw (
      E.at-obj (codes "data") _ (help_body E mapping filtering ip port) refl,
      node_ip-help_body,
      node_port-help_body h,
    )

  -- The datagram reaches the branch for "helpconnect".
  dispatched-help :
      (own : Str) (content : J) (d : Datagram) (t : Server J)
      → parsed E d (some (help_connect_msg E own content)) t
        ≡ then_listen E (help_connect E (help_connect_msg E own content)) t
  unfolding parsed typed dispatch help_connect_msg string_at find str_eq ◌>>=◌ if◌run◌else◌
  dispatched-help own content d t = rw (
    E.find_field-obj,
    E.get_string-str,
    E.at-obj (codes "nodeID") _ (E.str own) refl,
    E.get_string-str,
  )

  append_cancel : (a : List Packet) (p q : Packet) → a ++ p ∷ [] ≡ a ++ q ∷ [] → p ≡ q
  append_cancel [] p q e = cc
  append_cancel (x ∷ a) p q e = append_cancel a p q cc

  append_longer : (a : List Packet) (p : Packet) → a ≢ a ++ p ∷ []
  append_longer [] p e = cc
  append_longer (x ∷ a) p e = append_longer a p cc

  sent_body :
      (ip : Str) (port : ℕ) (msg : Str) (out : List Packet) (p : Packet)
      → (send_to E ip port msg out).1 ≡ out ++ p ∷ []
      → p.body ≡ msg
  unfolding send_to
  sent_body ip port msg out p e = elim (Bool-cases (E.is_address ip)) [
    | inl valid ↦
        ap (λ q. q.body)
          (sym (append_cancel out (record { ip = ip; port = port; body = msg }) p (rw valid at e)))
    | inr invalid ↦ absurd (append_longer out p (rw invalid at e))
  ]

  -- What a "proxyconnect" that sends a datagram puts into it: the asker's endpoint.
  proxy_connect-body :
      (ip : Str) (port : ℕ) (msg : J) (s u : Server J) (p : Packet)
      → proxy_connect E ip port msg s ≡ done tt u
      → u.sent ≡ s.sent ++ p ∷ []
      → (mapping : J) × (filtering : J) × (p.body
          ≡ E.dump (help_connect_msg E s.node_id (help_body E mapping filtering ip port)))
  unfolding proxy_connect send
  proxy_connect-body ip port msg s u p h e =
      let (own, s1, e1, h1) = >>=-eq-done _ _ s tt u h in
      let (content, s2, e2, h2) = >>=-eq-done _ _ s1 tt u h1 in
      let (to_ip, s3, e3, h3) = >>=-eq-done _ _ s2 tt u h2 in
      let (to_port, s4, e4, h4) = >>=-eq-done _ _ s3 tt u h3 in
      let (mapping, s5, e5, h5) = >>=-eq-done _ _ s4 tt u h4 in
      let (filtering, s6, e6, h6) = >>=-eq-done _ _ s5 tt u h5 in
      let (own_id, q1) = gets-eq-done _ s own s1 e1 in
      let same : s ≡ s6 =
        q1
        ∙ (require-eq-done _ s1 content s2 e2).1
        ∙ (require-eq-done _ s2 to_ip s3 e3).1
        ∙ (require-eq-done _ s3 to_port s4 e4).1
        ∙ (require-eq-done _ s4 mapping s5 e5).1
        ∙ (require-eq-done _ s5 filtering s6 e6).1 in
      let msg : J = help_connect_msg E own (help_body E mapping filtering ip port) in
      let out : (send_to E to_ip to_port (E.dump msg) s6.sent).1 ≡ s6.sent ++ p ∷ [] =
        ap (λ r. r.sent) (modify-eq-done _ s6 u h6) ∙ e ∙ ap (λ r. r.sent ++ p ∷ []) same in
      (
        mapping,
        filtering,
        sent_body to_ip to_port (E.dump msg) s6.sent p out
            ∙ ap (λ o. E.dump (help_connect_msg E o (help_body E mapping filtering ip port)))
                (sym own_id),
      )

  -- A node at `ip` and `port` asks a public node for help, and that sends a datagram: whoever gets
  -- the datagram whole, from another address than its own, sends its description three times to `ip`
  -- and `port`, where the asker was seen, and listens again.
  pub proxy_connect-handle_receive :
      (ip : Str) (port : ℕ) (msg : J) (s u : Server J) (p : Packet) (d : Datagram) (t : Server J)
      → proxy_connect E ip port msg s ≡ done tt u
      → u.sent ≡ s.sent ++ p ∷ []
      → port < 2 ^ 16
      → length p.body ≤ buffer_size
      → d.bytes ≡ p.body
      → d.ip ≢ t.local_ip
      → handle_receive E no_error d t
        ≡ done tt (
            final (
              send_thrice E ip port
                (open_connect_msg E t.node_id t.local_ep_info)
                (record t { receiving = true })))
  unfolding then_listen start_receive send_thrice send ◌>>=◌
  proxy_connect-handle_receive ip port msg s u p d t h e small fits same away =
      let (mapping, filtering, text) = proxy_connect-body ip port msg s u p h e in
      let content : J = help_body E mapping filtering ip port in
      let deaf : Server J = record t { receiving = false } in
      handle_receive-parsed E d (help_connect_msg E s.node_id content) t (same ∙ text)
        (rw same fits) away
      ∙ rw
          (
            dispatched-help s.node_id content d deaf,
            help_connect-help_body mapping filtering ip port s.node_id deaf small,
          )
          refl
