-- ===== src/Server/ProbeIds.antt =====
-- Under which ID a filtering probe waits for its answer, and which ID the probe carries.
use nat.Prelude.{arith, ℕ, ◌+◌, Str, ◌≡◌, refl, sym, ap, ◌∙◌}
use nat.External.{Env}
use nat.StdMap.{insert}
use nat.Effect.{done, ◌>>=◌}
use nat.Effect.Yields.{>>=-eq-done, require-eq-done, gets-eq-done, modify-eq-done}
use nat.ManagerHost.Laws.{get_public_node-FirstPublic}
use nat.Client.{send_to}
use nat.Server.State.{Server, with_checks, add_check, send, gen_uuid, public_node}
use nat.Server.Messages.{filtering_check_msg}
use nat.Server.Detect.{check_key, neighbour, start_check}

module _ {J : Type 0} (E : Env J) where
  public_node-done : (id text : Str) (s t : Server J) → public_node E id s ≡ done text t → s ≡ t
  unfolding public_node
  public_node-done id text s t h =
      let (m, s1, e1, h1) = >>=-eq-done _ _ s text t h in
      (gets-eq-done _ s m s1 e1).1 ∙ (get_public_node-FirstPublic E id m s1 t text h1).0

  neighbour-done : (s t : Server J) (near : J) → neighbour E s ≡ done near t → s ≡ t
  unfolding neighbour
  neighbour-done s t near h =
      let (own, s1, e1, h1) = >>=-eq-done _ _ s near t h in
      let (text, s2, e2, h2) = >>=-eq-done _ _ s1 near t h1 in
      let (info, s3, e3, h3) = >>=-eq-done _ _ s2 near t h2 in
      (gets-eq-done _ s own s1 e1).1
      ∙ public_node-done own text s1 s2 e2
      ∙ (gets-eq-done _ s2 info s3 e3).1
      ∙ (require-eq-done _ s3 near t h3).1

  gen_uuid-done :
      (s t : Server J) (id : Str)
      → gen_uuid E s ≡ done id t
      → (E.uuid s.drawn ≡ id) × (record s { drawn = s.drawn + 1 } ≡ t)
  unfolding gen_uuid ◌>>=◌
  gen_uuid-done s t id h = (ground arith, ground arith)

  -- The node after it has sent a probe from `own` to `near_ip` and `near_port`.
  unfoldable pub probing : ℕ → Str → ℕ → Str → Str → ℕ → Server J → Server J
  probing now ip port node near_ip near_port s = record s {
    drawn = s.drawn + 1 + 1;
    sent =
        (send_to E near_ip near_port
          (E.dump (filtering_check_msg E s.node_id ip port (E.uuid s.drawn))) s.sent).1;
    f_ck_time_map = insert (E.uuid (s.drawn + 1)) (check_key now ip port node) s.f_ck_time_map;
  }

  drawn_on : Server J → Server J
  drawn_on s = record s { drawn = s.drawn + 1 }

  mailed_to : Str → ℕ → Str → Server J → Server J
  mailed_to ip port text s = record s { sent = (send_to E ip port text s.sent).1 }

  filed : Str → Str → Server J → Server J
  filed id key s = record s { f_ck_time_map = insert id key s.f_ck_time_map }

  probe_steps :
      (now : ℕ) (ip : Str) (port : ℕ) (node near_ip : Str) (near_port : ℕ) (s s5 s6 s7 t : Server J)
      (own msg_id id : Str)
      → s.node_id ≡ own
      → E.uuid s.drawn ≡ msg_id
      → drawn_on s ≡ s5
      → mailed_to near_ip near_port (E.dump (filtering_check_msg E own ip port msg_id)) s5 ≡ s6
      → E.uuid s6.drawn ≡ id
      → drawn_on s6 ≡ s7
      → filed id (check_key now ip port node) s7 ≡ t
      → t ≡ probing now ip port node near_ip near_port s
  unfolding probing drawn_on mailed_to filed
  probe_steps now ip port node near_ip near_port s s5 s6 s7 t own msg_id id o u d m v e f =
      rw (sym f, sym e, sym v, sym m, sym d, sym u, sym o) refl

  -- Where the part of "detect" that starts a filtering probe returns, it has sent one probe, to a node
  -- whose endpoint it read, with the next UUID in it, and filed the probe in the time map under the
  -- UUID after that; nothing else has changed.
  pub start_check-probing :
      (now : ℕ) (ip : Str) (port : ℕ) (node : Str) (s t : Server J)
      → start_check E now ip port node s ≡ done tt t
      → (near_ip : Str) × (near_port : ℕ) × (t ≡ probing now ip port node near_ip near_port s)
  unfolding start_check send add_check with_checks drawn_on mailed_to filed
  start_check-probing now ip port node s t h =
      let (own, s1, e1, h1) = >>=-eq-done _ _ s tt t h in
      let (near, s2, e2, h2) = >>=-eq-done _ _ s1 tt t h1 in
      let (near_ip, s3, e3, h3) = >>=-eq-done _ _ s2 tt t h2 in
      let (near_port, s4, e4, h4) = >>=-eq-done _ _ s3 tt t h3 in
      let (msg_id, s5, e5, h5) = >>=-eq-done _ _ s4 tt t h4 in
      let (x, s6, e6, h6) = >>=-eq-done _ _ s5 tt t h5 in
      let (id, s7, e7, h7) = >>=-eq-done _ _ s6 tt t h6 in
      let (o, q1) = gets-eq-done _ s own s1 e1 in
      let same : s ≡ s4 =
        q1
        ∙ neighbour-done s1 s2 near e2
        ∙ (require-eq-done _ s2 near_ip s3 e3).1
        ∙ (require-eq-done _ s3 near_port s4 e4).1 in
      let (u, d) = gen_uuid-done s4 s5 msg_id e5 in
      let (v, e) = gen_uuid-done s6 s7 id e7 in
      (
        near_ip,
        near_port,
        probe_steps now ip port node near_ip near_port s s5 s6 s7 t own msg_id id o
            (ap (λ r. E.uuid r.drawn) same ∙ u) (ap drawn_on same ∙ d) (modify-eq-done _ s5 s6 e6) v
            e (modify-eq-done _ s7 t h7),
      )
