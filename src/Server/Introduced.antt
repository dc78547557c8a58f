-- ===== src/Server/Introduced.antt =====
-- An "update" that introduces public nodes (`handleReceive`, server.cpp).
use nat.Prelude.{
  ℕ, ◌^◌, ◌<◌, Str, codes, str_eq, some, true, false, List, [], ◌∷◌, ◌≡◌, refl, ◌∙◌, if◌then◌else◌,
}
use native.Mathlib.Nat.{mod-eq_of_lt}
use nat.External.{Env}
use nat.StdMap.{StdMap, find, has, insert, add, find-insert}
use nat.Effect.{done, ◌>>=◌, if◌run◌else◌}
use nat.Describe.{
  nonmap, nonfilter, endpoint_json, node_json, public_json, string_at, port_at, first_endpoint,
  node_ip, node_port,
}
use nat.Client.{send_to}
use nat.ManagerHost.{add_new_node}
use nat.Server.State.{Server, add_node, send}
use nat.Server.Messages.{open_connect_msg}
use nat.Server.Update.{endpoint_key, Remote, connect_public, connect, update_item}

-- A node's ID, and its endpoint.
abbrev pub Entry : Type 0
Entry = Str × Str × ℕ

-- The endpoints of the nodes other than `own`.
unfoldable pub others : Str → List Entry → List (Str × ℕ)
others own [] = []
others own ((id, ip, port) ∷ es) =
    let rest = others own es in if str_eq own id then rest else (ip, port) ∷ rest

-- The node `own` does not know the endpoint, and no datagram came from its address.
pub record IsNew (own remote_ip : Str) (hosts : StdMap Str) (e : Entry) : Type 0 where
  pub small : e.2 < 2 ^ 16
  pub unknown : has (endpoint_key e.1 e.2) hosts ≡ false
  pub plain : str_eq own (endpoint_key e.1 e.2) ≡ false
  pub elsewhere : str_eq e.1 remote_ip ≡ false

has-insert : (k j v : Str) (m : StdMap Str) → str_eq k j ≡ false → has j (insert k v m) ≡ has j m
has-insert k j v m ne = rw (has, find-insert k j v m, ne) refl

pub IsNew-insert :
    (own rip text : Str) (hosts : StdMap Str) (e : Entry)
    → IsNew own rip hosts e
    → IsNew own rip (insert own text hosts) e
IsNew-insert own rip text hosts e n = record {
  small = n.small;
  unknown = has-insert own _ text hosts n.plain ∙ n.unknown;
  plain = n.plain;
  elsewhere = n.elsewhere;
}

module _ {J : Type 0} (E : Env J) where
  abbrev pub public_text : Str → ℕ → Str
  public_text ip port = E.dump (public_json E ip port)

  -- The list of a node that knows public nodes alone.
  unfoldable pub table : List Entry → StdMap Str
  table [] = []
  table ((id, ip, port) ∷ es) = (id, public_text ip port) ∷ table es

  node_ip-public_json : (ip : Str) (port : ℕ) → node_ip E (public_json E ip port) ≡ some ip
  unfolding node_ip first_endpoint string_at public_json node_json endpoint_json find str_eq
  node_ip-public_json ip port =
      rw
        (
          E.at-obj (codes "endpoint") _ (E.arr (endpoint_json E ip port ∷ [])) refl,
          E.first-arr,
          E.at-obj (codes "ip") _ (E.str ip) refl,
          E.get_string-str,
        )
        refl

  node_port-public_json :
      (ip : Str) (port : ℕ) → port < 2 ^ 16 → node_port E (public_json E ip port) ≡ some port
  unfolding node_port first_endpoint port_at public_json node_json endpoint_json find str_eq
  node_port-public_json ip port small =
      rw
        (
          E.at-obj (codes "endpoint") _ (E.arr (endpoint_json E ip port ∷ [])) refl,
          E.first-arr,
          E.at-obj (codes "port") _ (E.num port) refl,
          E.get_port-num,
          mod-eq_of_lt small,
        )
        refl

  -- The node after it has sent its description to one that is public.
  unfoldable pub met : Str → ℕ → Server J → Server J
  met ip port s = record s {
    public_nodes =
        if s.public_flag then add (endpoint_key ip port) s.public_nodes else s.public_nodes;
    sent = (send_to E ip port (E.dump (open_connect_msg E s.node_id s.local_ep_info)) s.sent).1;
  }

  connect-public_json :
      (r : Remote) (ip : Str) (port : ℕ) (s : Server J)
      → connect E r ip port (public_json E ip port) s ≡ done r (met ip port s)
  unfolding connect connect_public send met string_at public_json node_json endpoint_json find
      str_eq ◌>>=◌ if◌run◌else◌
  connect-public_json r ip port s =
      rw
        (
          E.at-obj (codes "natmapping") _ (E.str nonmap) refl,
          E.get_string-str,
          E.at-obj (codes "natfiltering") _ (E.str nonfilter) refl,
          E.get_string-str,
        )
        refl

  pub update_item-other :
      (sender : Str) (r : Remote) (e : Entry) (s : Server J)
      → IsNew s.node_id r.ip s.host_list e
      → str_eq s.node_id e.0 ≡ false
      → update_item E sender r e.0 (E.str (public_text e.1 e.2)) s ≡ done r (met e.1 e.2 s)
  unfolding update_item ◌>>=◌ if◌run◌else◌
  update_item-other sender r e s n ne =
      rw
        (
          E.get_string-str,
          E.parse-dump (public_json E e.1 e.2),
          node_ip-public_json e.1 e.2,
          node_port-public_json e.1 e.2 n.small,
          n.unknown,
          ne,
          n.elsewhere,
        )
        (connect-public_json r e.1 e.2 s)

  pub update_item-own :
      (sender : Str) (r : Remote) (e : Entry) (s : Server J)
      → IsNew s.node_id r.ip s.host_list e
      → str_eq s.node_id e.0 ≡ true
      → update_item E sender r e.0 (E.str (public_text e.1 e.2)) s
        ≡ done r (record s {
          man_host = record { host_list = insert s.node_id (public_text e.1 e.2) s.host_list };
        })
  unfolding update_item add_node add_new_node ◌>>=◌ if◌run◌else◌
  update_item-own sender r e s n same =
      rw
        (
          E.get_string-str,
          E.parse-dump (public_json E e.1 e.2),
          node_ip-public_json e.1 e.2,
          node_port-public_json e.1 e.2 n.small,
          n.unknown,
          same,
        )
        refl
