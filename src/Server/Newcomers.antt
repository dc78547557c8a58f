-- ===== src/Server/Newcomers.antt =====
-- A node that gets only "detect" messages (server.cpp): its list holds what it wrote itself, and its
-- timer reads that.
use nat.Prelude.{
  ℕ, ◌≤◌, Str, codes, str_eq, int_max, Bool, List, [], ◌∷◌, ◌≡◌, refl, ap, subst, sym, ◌%◌, ◌^◌,
}
use nat.StdMap.{find}
use nat.StdMap.Values.{insert-AllValues}
use nat.External.{Env, IsPlain}
use nat.Effect.{done, final, modify, ◌>>=◌}
use nat.Effect.Keeps.{Keeps, keeps, Keeps-bind, Keeps-if, Keeps-gets, Keeps-require}
use nat.Describe.{endpoint_json, node_json, public_json, port_at, first_endpoint, node_port}
use nat.ManagerHost.{add_new_node}
use nat.Server.State.{with_checks, Server, add_node, add_check, send, gen_uuid}
use nat.Server.Detect.{check_key, mapped_json, add_self, detect_mapped, detect_public, detect}
use nat.Server.Moved.{node_ip-described}
use nat.Server.Detect.Handled.{IsDetect, Keeps-handle_detect}
use nat.Server.Detect.Keeps.{Keeps-start_check, Keeps-update_route_info}
use nat.Server.Receive.{Datagram, RecvError, handle_receive}
use nat.Server.Readable.{IsReadable, IsEarly, IsHealthy}
use nat.Server.Timer.{timer_round}
use nat.Server.Threads.{threadhandle}
use nat.Server.SteadyRounds.{timer_round-Fine, threadhandle-IsHealthy}
use nat.Server.Invariant.{Reach, Reach-keeps}
use nat.Server.Start.{start}

module _ {J : Type 0} (E : Env J) where
  node_json-IsReadable :
      (mapping filtering ip : Str) (port : ℕ) (rest : List J)
      → IsReadable E (E.dump (node_json E mapping filtering (endpoint_json E ip port ∷ rest)))
  unfolding node_json endpoint_json node_port first_endpoint port_at find str_eq
  node_json-IsReadable mapping filtering ip port rest = record {
    ip = ip;
    port = port % 2 ^ 16;
    shape = refl;
    fields = _;
    ip_there = node_ip-described E mapping filtering ip port rest;
    port_there =
        rw
          (
            E.at-obj (codes "endpoint") _ (E.arr (endpoint_json E ip port ∷ rest)) refl,
            E.first-arr,
            E.at-obj (codes "port") _ (E.num port) refl,
            E.get_port-num,
          )
          refl;
  }

  Keeps-add : (id text : Str) → IsReadable E text → Keeps (IsHealthy E) (add_node id text)
  unfolding add_node add_new_node modify
  Keeps-add id text r = keeps λ s h. record {
    hosts = insert-AllValues (IsReadable E) id text s.host_list r h.hosts;
    probes = h.probes;
  }

  Keeps-send : (ip : Str) (port : ℕ) (msg : J) → Keeps (IsHealthy E) (send E ip port msg)
  unfolding send modify
  Keeps-send ip port msg = keeps λ s h. record { hosts = h.hosts; probes = h.probes }

  Keeps-draw : Keeps (IsHealthy E) (gen_uuid E)
  unfolding gen_uuid modify ◌>>=◌
  Keeps-draw = keeps λ s h. record { hosts = h.hosts; probes = h.probes }

  Keeps-add_self : Keeps (IsHealthy E) (add_self E)
  unfolding add_self public_json
  Keeps-add_self = Keeps-bind _ _ (Keeps-gets _) λ own. Keeps-bind _ _ (Keeps-gets _) λ ip.
      Keeps-bind _ _ (Keeps-gets _) λ port. Keeps-add own _ (node_json-IsReadable _ _ ip port [])

  module _ (now : ℕ) (ip : Str) (port : ℕ) (early : now ≤ int_max) (plain : IsPlain ip) where
    Keeps-check : (id node : Str) → Keeps (IsHealthy E) (add_check id (check_key now ip port node))
    unfolding add_check with_checks modify
    Keeps-check id node = keeps λ s h. record {
      hosts = h.hosts;
      probes =
          insert-AllValues (IsEarly E) id _ s.f_ck_time_map
            (record {
              probe = record {
                now = now;
                ip = ip;
                port = port;
                node = node;
                plain = plain;
                shape = refl;
              };
              early = early;
            })
            h.probes;
    }

    Keeps-detect : (node : Str) (msg : J) → Keeps (IsHealthy E) (detect E now ip port node msg)
    unfolding detect detect_mapped detect_public mapped_json public_json
    Keeps-detect node msg = Keeps-bind _ _ (Keeps-require _) λ content.
        Keeps-bind _ _ (Keeps-require _) λ local_ip. Keeps-bind _ _ (Keeps-require _) λ port_text.
          Keeps-bind _ _ (Keeps-require _) λ local_port.
            Keeps-if _ _ _
              (Keeps-bind _ _ (Keeps-add node _ (node_json-IsReadable _ _ ip port _)) λ x.
                Keeps-bind _ _ Keeps-add_self λ y.
                  Keeps-bind _ _
                    (Keeps-start_check E now ip port Keeps-send Keeps-check Keeps-draw node)
                    λ z. Keeps-update_route_info E Keeps-send)
              (Keeps-bind _ _ (Keeps-add node _ (node_json-IsReadable _ _ ip port []))
                λ x. Keeps-bind _ _ Keeps-add_self λ y. Keeps-update_route_info E Keeps-send)

  heard : (s : Server J) (b : Bool) → IsHealthy E s → IsHealthy E (record s { receiving = b })
  heard s b h = record { hosts = h.hosts; probes = h.probes }

  pub Keeps-handle_receive :
      (err : RecvError) (d : Datagram) → IsDetect E d → Keeps (IsHealthy E) (handle_receive E err d)
  Keeps-handle_receive err d k =
      Keeps-handle_detect E d k (Keeps-detect d.now d.ip d.port k.early k.plain k.node _) heard err

  Keeps-timer_round : (now : ℕ) → Keeps (IsHealthy E) (timer_round E now)
  Keeps-timer_round now = keeps λ s h.
      let (x, t, e, g) = timer_round-Fine E now s h in subst (IsHealthy E) (sym (ap final e)) g

  pub start-IsHealthy :
      (rip : Str) (rport port : ℕ) (flag : Bool) (ip : Str)
      → IsHealthy E (start E rip rport port flag ip)
  unfolding start
  start-IsHealthy rip rport port flag ip = record { hosts = tt; probes = tt }

  -- A node that gets only "detect" messages, whole, while the time fits an `int` and from addresses
  -- without an underscore, and handles each to the end, with rounds of its timer between them: from
  -- then on every round of its timer returns, however often it wakes, and whenever.
  pub threadhandle-Reach :
      (rip : Str) (rport port : ℕ) (flag : Bool) (ip : Str) {s : Server J} (times : List ℕ)
      → Reach E (IsDetect E) (start E rip rport port flag ip) s
      → (t : Server J) × (threadhandle E times s ≡ done tt t) × IsHealthy E t
  threadhandle-Reach rip rport port flag ip {s} times r = threadhandle-IsHealthy E times s (
      Reach-keeps E {P = IsHealthy E} Keeps-handle_receive Keeps-timer_round r
        (start-IsHealthy rip rport port flag ip))
