-- ===== src/Server/Moved.antt =====
-- An "openconnect" from another endpoint than its description gives: what the node then knows.
use nat.Prelude.{
  ℕ, ◌^◌, ◌<◌, Str, codes, str_eq, str_eq_refl, ◌==◌, ◌&&◌, some, true, false, List, ◌∷◌, ◌≡◌, refl,
  ◌∙◌, arith, Bool-cases, inl, inr,
}
use nat.External.{Env}
use nat.StdMap.{find, has, find-insert, find-assign}
use nat.Effect.{done, final, ◌>>=◌, if◌run◌else◌}
use nat.Describe.{
  endpoint_json, node_json, string_at, port_at, first_endpoint, node_ip, node_port, with_endpoint,
}
use nat.Server.State.{Server, with_hosts, add_node, assign_node}
use nat.ManagerHost.{add_new_node}
use nat.Server.Messages.{open_connect_msg}
use nat.Server.Connect.{is_moved, store_node, open_connect}

module _ {J : Type 0} (E : Env J) where
  -- After it a node's text is the given description, whatever it was.
  pub find-store_node :
      (node : Str) (info : J) (s : Server J)
      → (store_node E node info s ≡ done tt (final (store_node E node info s)))
        × (find node (final (store_node E node info s)).host_list ≡ some (E.dump info))
  unfolding store_node add_node assign_node with_hosts add_new_node ◌>>=◌ if◌run◌else◌
  find-store_node node info s = elim (Bool-cases (has node s.host_list)) [
    | inl known ↦
        rw known (
          refl,
          find-assign node node (E.dump info) s.host_list ∙ rw (str_eq_refl node, known) refl,
        )
    | inr new ↦
        rw new
          (refl, find-insert node node (E.dump info) s.host_list ∙ rw (str_eq_refl node, new) refl)
  ]

  -- The description of a node with its first endpoint and the others.
  abbrev pub described : Str → Str → List J → Str → ℕ → J
  described mapping filtering rest ip port =
      node_json E mapping filtering (endpoint_json E ip port ∷ rest)

  module _ (mapping filtering old_ip : Str) (old_port : ℕ) (rest : List J) where
    with_endpoint-described :
        (ip : Str) (port : ℕ)
        → with_endpoint E ip port (described mapping filtering rest old_ip old_port)
          ≡ some (described mapping filtering rest ip port)
    unfolding with_endpoint node_json endpoint_json find str_eq
    with_endpoint-described ip port =
        rw
          (
            E.at-obj (codes "endpoint") _ (E.arr (endpoint_json E old_ip old_port ∷ rest)) refl,
            E.first-arr,
            E.put-obj,
            E.put-obj,
            E.put_first-arr,
            E.put-obj,
          )
          refl

    pub node_ip-described :
        node_ip E (described mapping filtering rest old_ip old_port) ≡ some old_ip
    unfolding node_ip first_endpoint string_at node_json endpoint_json find str_eq
    node_ip-described = rw (
      E.at-obj (codes "endpoint") _ (E.arr (endpoint_json E old_ip old_port ∷ rest)) refl,
      E.first-arr,
      E.at-obj (codes "ip") _ (E.str old_ip) refl,
      E.get_string-str,
    )

    pub node_port-described :
        old_port < 2 ^ 16
        → node_port E (described mapping filtering rest old_ip old_port) ≡ some old_port
    unfolding node_port first_endpoint port_at node_json endpoint_json find str_eq
    node_port-described h =
        rw
          (
            E.at-obj (codes "endpoint") _ (E.arr (endpoint_json E old_ip old_port ∷ rest)) refl,
            E.first-arr,
            E.at-obj (codes "port") _ (E.num old_port) refl,
            E.get_port-num,
          )
          (ground arith)

    is_moved-described :
        (ip : Str) (port : ℕ) (s : Server J)
        → old_port < 2 ^ 16
        → (str_eq ip old_ip && port == old_port) ≡ false
        → is_moved E ip port (described mapping filtering rest old_ip old_port) s ≡ done true s
    unfolding is_moved ◌>>=◌ if◌run◌else◌
    is_moved-described ip port s small moved = elim (Bool-cases (str_eq ip old_ip)) [
      | inl same ↦ rw (node_ip-described, same, node_port-described small, rw same at moved) refl
      | inr other ↦ rw (node_ip-described, other) refl
    ]

    stored :
        (ip : Str) (port : ℕ) (node : Str) (s : Server J)
        → old_port < 2 ^ 16
        → (str_eq ip old_ip && port == old_port) ≡ false
        → open_connect E ip port node
            (open_connect_msg E node (described mapping filtering rest old_ip old_port))
            s
          ≡ store_node E node (described mapping filtering rest ip port) s
    unfolding open_connect open_connect_msg find str_eq ◌>>=◌ if◌run◌else◌
    stored ip port node s small moved =
        rw
          (
            E.at-obj (codes "data") _ (described mapping filtering rest old_ip old_port) refl,
            is_moved-described ip port s small moved,
            with_endpoint-described ip port,
          )
          refl

    -- An "openconnect" that comes from another endpoint than the first one of the description in it
    -- is handled to the end, and the node then has the description under the sender's ID with the
    -- endpoint that the datagram came from in place of the first one.
    pub find-open_connect :
        (ip : Str) (port : ℕ) (node : Str) (s : Server J)
        → old_port < 2 ^ 16
        → (str_eq ip old_ip && port == old_port) ≡ false
        → (open_connect E ip port node
              (open_connect_msg E node (described mapping filtering rest old_ip old_port))
              s
            ≡ done tt (
                final (
                  open_connect E ip port node
                    (open_connect_msg E node (described mapping filtering rest old_ip old_port))
                    s)))
          × (find node
                (final (
                  open_connect E ip port node
                    (open_connect_msg E node (described mapping filtering rest old_ip old_port))
                    s)).host_list
              ≡ some (E.dump (described mapping filtering rest ip port)))
    find-open_connect ip port node s small moved =
        rw (stored ip port node s small moved)
          (find-store_node node (described mapping filtering rest ip port) s)
