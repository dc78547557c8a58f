-- ===== src/ManagerHost.antt =====
-- managerhost.hpp and managerhost.cpp: the table of nodes, from a node's ID to the JSON text that
-- describes the node. Of what the methods print only the list of `listNodes` is modelled.
pub mod Laws
pub mod Spec
pub mod Canonical
pub mod Abstract
use nat.Prelude.{
  ℕ, List, map, codes, Str, str_eq, to_string, Option, none, some, Bool, true, false, not, ◌&&◌, [],
  ◌∷◌, ◌++◌,
}
use nat.StdMap.{StdMap, insert, assign}
use nat.External.{Env}
use nat.Effect.{M, pure, require, ◌>>=◌, if◌run◌else◌}
use nat.Describe.{is_public}

pub record ManagerHost : Type 0 where
  pub host_list : StdMap Str

-- The source's `port` is an `int`; here it is not negative.
pub record HostInfo : Type 0 where
  pub ip : Str
  pub port : ℕ
  pub nat_type : Str

to_text : HostInfo → Str
to_text h = h.ip ++ to_string h.port ++ h.nat_type

-- Each method returns the status that the source returns, and the table.
unfoldable pub add_new_node : Str → Str → ManagerHost → ℕ × ManagerHost
add_new_node node_id info m = (0, record m { host_list = insert node_id info m.host_list })

unfoldable pub delete_node : HostInfo → ManagerHost → ℕ × ManagerHost
delete_node h m = (1, m)

unfoldable pub change_node : Str → Str → ManagerHost → ℕ × ManagerHost
change_node key value m = (0, record m { host_list = assign key value m.host_list })

unfoldable pub get_list : ManagerHost → StdMap Str
get_list m = m.host_list

abbrev banner : Str
banner = codes "=*=*=*=*=*=*=*=*=*=*=*=*=*=*=*=*=*=*=*=*=*=*=*=*=*=*=*="

abbrev pub node_line : Str × Str → Str
node_line h = codes "key:" ++ (h.0 ++ (codes " value:" ++ h.1))

-- What `listNodes` prints, line by line.
unfoldable pub list_nodes : ManagerHost → List Str
list_nodes m = banner ∷ (map node_line m.host_list ++ banner ∷ [])

module _ {J S : Type 0} (E : Env J) where
  -- The text of the first public node in key order other than `node_id`, or the empty text.
  unfoldable pub public_node_of : Str → StdMap Str → M S Str
  public_node_of node_id [] = pure []
  public_node_of node_id ((k, v) ∷ hosts) = do
    node ← require (E.parse v)
    open_node ← require (is_public E node)
    if open_node && not (str_eq node_id k) run pure v else public_node_of node_id hosts

  unfoldable pub get_public_node : Str → ManagerHost → M S Str
  get_public_node node_id m = public_node_of node_id m.host_list
