-- ===== src/Server/Undescribed.antt =====
-- A node without a description of itself that is asked to open a way to another (server.cpp).
use nat.Prelude.{false, ℕ, ◌≤◌, Str, codes, str_eq, some, none, ◌≡◌, ◌≢◌, refl, ◌∙◌, length}
use nat.External.{Env}
use nat.StdMap.{find}
use nat.Effect.{fails, exception, ◌>>=◌, if◌run◌else◌}
use nat.Describe.{string_at, first_endpoint, node_ip, node_port}
use nat.Server.State.{Server, send_thrice}
use nat.Server.Messages.{data_msg, help_connect_msg, open_connect_msg}
use nat.Server.Connect.{is_moved, help_connect, open_connect}
use nat.Server.Buffer.{handle_receive-parsed}
use nat.Server.Receive.{
  Datagram, no_error, buffer_size, then_listen, dispatch, typed, parsed, handle_receive,
}

module _ {J : Type 0} (E : Env J) where
  node_ip-null : node_ip E E.null ≡ none
  unfolding node_ip first_endpoint string_at
  node_ip-null = rw (E.at-null, E.first-null, E.at-null, E.get_string-null) refl

  parsed-null :
      (node : Str) (d : Datagram) (s : Server J)
      → parsed E d (some (open_connect_msg E node E.null)) s ≡ fails exception s
  unfolding parsed typed dispatch then_listen open_connect is_moved open_connect_msg data_msg
      string_at find str_eq ◌>>=◌ if◌run◌else◌
  parsed-null node d s = rw (
    E.find_field-obj,
    E.get_string-str,
    E.at-obj (codes "nodeID") _ (E.str node) refl,
    E.get_string-str,
    E.at-obj (codes "data") _ E.null refl,
    node_ip-null,
  )

  -- A node whose description of itself is null, as it is at the start of one that is not public,
  -- gets a "helpconnect" about an endpoint: it sends an "openconnect" there three times; and
  -- whoever gets that whole, from another address than its own, throws while it handles it, and so
  -- ends.
  pub help_connect-undescribed :
      (own : Str) (content : J) (ip : Str) (port : ℕ) (s : Server J) (d : Datagram) (t : Server J)
      → s.local_ep_info ≡ E.null
      → node_ip E content ≡ some ip
      → node_port E content ≡ some port
      → d.bytes ≡ E.dump (open_connect_msg E s.node_id s.local_ep_info)
      → length d.bytes ≤ buffer_size
      → d.ip ≢ t.local_ip
      → (help_connect E (help_connect_msg E own content) s
          ≡ send_thrice E ip port (open_connect_msg E s.node_id s.local_ep_info) s)
        × (handle_receive E no_error d t ≡ fails exception (record t { receiving = false }))
  unfolding help_connect help_connect_msg find str_eq ◌>>=◌
  help_connect-undescribed own content ip port s d t null there at_port same fits away = (
    rw (E.at-obj (codes "data") _ content refl, there, at_port) refl,
    handle_receive-parsed E d (open_connect_msg E s.node_id E.null) t (rw null at same) fits away
        ∙ rw (parsed-null s.node_id d (record t { receiving = false })) refl,
  )
