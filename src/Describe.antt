-- ===== src/Describe.antt =====
-- The JSON that describes a node: how its NAT maps and filters, and its endpoints, the public one
-- first. The source writes these reads and literals out wherever it needs them (server.cpp).
use nat.Prelude.{
  ℕ, Str, codes, str_eq, Option, none, some, Bool, false, List, [], ◌∷◌, if◌then◌else◌,
}
use nat.External.{Env}

infixl 10 ◌>>=◌
abbrev ◌>>=◌ : {A B : Type 0} → Option A → (A → Option B) → Option B
none >>= k = none
some a >>= k = k a

abbrev pub nonmap : Str
nonmap = codes "Nonmap"

abbrev pub nonfilter : Str
nonfilter = codes "Nonfilter"

module _ {J : Type 0} (E : Env J) where
  -- `{{"ip", ip}, {"port", port}}`.
  unfoldable pub endpoint_json : Str → ℕ → J
  endpoint_json ip port = E.obj ((codes "ip", E.str ip) ∷ (codes "port", E.num port) ∷ [])

  -- `{{"natmapping", …}, {"natfiltering", …}, {"endpoint", {…}}}`.
  unfoldable pub node_json : Str → Str → List J → J
  node_json mapping filtering endpoints = E.obj (
      (codes "endpoint", E.arr endpoints)
      ∷ (codes "natfiltering", E.str filtering)
      ∷ (codes "natmapping", E.str mapping)
      ∷ [])

  -- A node that neither maps nor filters.
  unfoldable pub public_json : Str → ℕ → J
  unfolding node_json endpoint_json
  public_json ip port = node_json nonmap nonfilter (endpoint_json ip port ∷ [])

  -- `j[key].get<std::string>()`.
  unfoldable pub string_at : Str → J → Option Str
  string_at key j = do v ← E.at key j; E.get_string v

  -- `j[key].get<unsigned short>()`.
  unfoldable pub port_at : Str → J → Option ℕ
  port_at key j = do v ← E.at key j; E.get_port v

  -- `j["endpoint"][0]`.
  unfoldable pub first_endpoint : J → Option J
  first_endpoint j = do e ← E.at (codes "endpoint") j; E.first e

  unfoldable pub node_ip : J → Option Str
  unfolding first_endpoint string_at
  node_ip j = do e ← first_endpoint j; string_at (codes "ip") e

  unfoldable pub node_port : J → Option ℕ
  unfolding first_endpoint port_at
  node_port j = do e ← first_endpoint j; port_at (codes "port") e

  -- `natmapping == "Nonmap" && natfiltering == "Nonfilter"`; the second is read if the first holds.
  unfoldable pub is_public : J → Option Bool
  unfolding string_at
  is_public j = do
    mapping ← string_at (codes "natmapping") j
    if str_eq mapping nonmap
        then (do filtering ← string_at (codes "natfiltering") j; some (str_eq filtering nonfilter))
        else some false

  -- `j["endpoint"][0]["ip"] = ip; j["endpoint"][0]["port"] = port`.
  unfoldable pub with_endpoint : Str → ℕ → J → Option J
  with_endpoint ip port j = do
    e ← E.at (codes "endpoint") j
    h ← E.first e
    h' ← E.put (codes "ip") (E.str ip) h
    h'' ← E.put (codes "port") (E.num port) h'
    e' ← E.put_first h'' e
    E.put (codes "endpoint") e' j
