-- ===== src/Server/Documented.antt =====
-- The messages that the comment at the end of server.hpp describes, and what a node does with one.
use nat.Prelude.{false, ◌∙◌, ◌≤◌, Str, codes, str_eq, some, [], ◌∷◌, ◌≡◌, ◌≢◌, refl, length}
use nat.External.{Env}
use nat.StdMap.{find}
use nat.Effect.{fails, exception, ◌>>=◌}
use nat.Describe.{string_at}
use nat.Server.State.{Server}
use nat.Server.Buffer.{handle_receive-parsed}
use nat.Server.Receive.{Datagram, no_error, buffer_size, typed, parsed, handle_receive}

-- `msgTypeEnum`.
pub data MsgTypeEnum : Type 0 where
  noderegister update holdpunching : MsgTypeEnum

-- An end point of a documented message, with texts for all three.
pub record Peer : Type 0 where
  pub ip : Str
  pub port : Str
  pub nattype : Str

abbrev pub msg_type : MsgTypeEnum → Str
msg_type noderegister = codes "register"
msg_type update = codes "update"
msg_type holdpunching = codes "holdpunching"

module _ {J : Type 0} (E : Env J) where
  unfoldable pub peer_json : Peer → J
  peer_json p = E.obj (
      (codes "ip", E.str p.ip)
      ∷ (codes "nattype", E.str p.nattype)
      ∷ (codes "port", E.str p.port)
      ∷ [])

  unfoldable pub documented_data : MsgTypeEnum → Peer → Peer → J
  documented_data holdpunching from to =
      E.obj ((codes "from", peer_json from) ∷ (codes "to", peer_json to) ∷ [])
  documented_data _ from to = E.obj ((codes "from", peer_json from) ∷ [])

  unfoldable pub documented_msg : MsgTypeEnum → Peer → Peer → J
  documented_msg kind from to =
      E.obj (
        (codes "data", documented_data kind from to)
        ∷ (codes "msgtype", E.str (msg_type kind))
        ∷ [])

  -- The handler wants a `nodeID` too.
  parsed-documented :
      (kind : MsgTypeEnum) (from to : Peer) (d : Datagram) (s : Server J)
      → parsed E d (some (documented_msg kind from to)) s ≡ fails exception s
  unfolding parsed typed documented_msg string_at ◌>>=◌ find str_eq
  parsed-documented kind from to d s =
      rw (
        E.find_field-obj,
        E.get_string-str,
        E.at-missing (codes "nodeID") _ refl,
        E.get_string-null,
      )

  -- A node that gets one of the three messages as documented, from another address than its own,
  -- throws while it handles it, and so ends.
  pub handle_receive-documented :
      (kind : MsgTypeEnum) (from to : Peer) (d : Datagram) (s : Server J)
      → d.bytes ≡ E.dump (documented_msg kind from to)
      → length d.bytes ≤ buffer_size
      → d.ip ≢ s.local_ip
      → handle_receive E no_error d s ≡ fails exception (record s { receiving = false })
  unfolding ◌>>=◌
  handle_receive-documented kind from to d s same fits away =
      handle_receive-parsed E d _ s same fits away
      ∙ rw (parsed-documented kind from to d (record s { receiving = false })) refl
