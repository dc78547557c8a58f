-- ===== src/Server/Readable.antt =====
-- A node whose texts are descriptions, and whose probes were all started in time (server.cpp).
use nat.Prelude.{
  ℕ, ◌≤◌, Str, codes, str_eq, int_max, some, false, List, ◌≡◌, refl, sym, ◌∙◌, Option-cases, inl,
  inr,
}
use nat.StdMap.{StdMap, find}
use nat.StdMap.Values.{AllValues}
use nat.External.{Env, with_field}
use nat.Describe.{first_endpoint, node_ip, node_port}
use nat.Server.State.{Server}
use nat.Server.Lacking.{find-with_field, apart}
use nat.Server.Probes.{IsProbe}

module _ {J : Type 0} (E : Env J) where
  -- The text of an object with an endpoint that can be read.
  pub record IsReadable (text : Str) : Type 0 where
    pub fields : List (Str × J)
    pub ip : Str
    pub port : ℕ
    pub shape : text ≡ E.dump (E.obj fields)
    pub ip_there : node_ip E (E.obj fields) ≡ some ip
    pub port_there : node_port E (E.obj fields) ≡ some port

  abbrev pub AllReadable : StdMap Str → Type 0
  AllReadable = AllValues IsReadable

  -- Another field does not touch the endpoint.
  at-with_field :
      (k j : Str) (v : J) (fs : List (Str × J))
      → str_eq k j ≡ false
      → E.at j (E.obj (with_field k v fs)) ≡ E.at j (E.obj fs)
  at-with_field k j v fs off = elim (Option-cases (find j fs)) [
    | inl e ↦
        E.at-missing j (with_field k v fs) (find-with_field E k j v fs off ∙ e)
        ∙ sym (E.at-missing j fs e)
    | inr (w, e) ↦
        E.at-obj j (with_field k v fs) w (find-with_field E k j v fs off ∙ e)
        ∙ sym (E.at-obj j fs w e)
  ]

  pub marked-IsReadable :
      (mark : Str) (text : Str) (r : IsReadable text)
      → IsReadable (E.dump (E.obj (with_field (codes "natfiltering") (E.str mark) r.fields)))
  unfolding node_ip node_port first_endpoint
  marked-IsReadable mark text r =
      let same =
        at-with_field (codes "natfiltering") (codes "endpoint") (E.str mark) r.fields (apart E) in
      record {
        fields = with_field (codes "natfiltering") (E.str mark) r.fields;
        ip = r.ip;
        port = r.port;
        shape = refl;
        ip_there = rw same (r.ip_there);
        port_there = rw same (r.port_there);
      }

  -- The key of a probe that was started while `std::time` fits an `int`.
  pub record IsEarly (key : Str) : Type 0 where
    pub probe : IsProbe key
    pub early : probe.now ≤ int_max

  abbrev pub AllEarly : StdMap Str → Type 0
  AllEarly = AllValues IsEarly

  pub record IsHealthy (s : Server J) : Type 0 where
    pub hosts : AllReadable s.host_list
    pub probes : AllEarly s.f_ck_time_map
