-- ===== src/Client.antt =====
-- client.hpp and client.cpp: the sender on a socket, and `sendTo`, one datagram to a numeric address.
pub mod Encrypt
pub mod LocalIp
pub mod Log
use nat.Prelude.{ℕ, Str, List, [], ◌∷◌, ◌++◌, if◌then◌else◌}
use nat.External.{Env}

-- A datagram that was handed to the socket.
pub record Packet : Type 0 where
  pub ip : Str
  pub port : ℕ
  pub body : Str

-- `client`. Its socket is shared with its owner, and is here the list of what was handed to it.
pub record Client : Type 0 where
  pub client_socket : List Packet

-- The constructor; it does not use the port.
abbrev pub client : ℕ → List Packet → Client
client int_port client_socket_ptr = record { client_socket = client_socket_ptr }

-- The return values 0 and -1 of `sendTo`.
pub data Status : Type 0 where
  finished failed : Status

module _ {J : Type 0} (E : Env J) where
  -- An address that does not parse throws inside `sendTo`, which catches it and sends nothing. What
  -- the socket reports is ignored.
  unfoldable pub send_to : Str → ℕ → Str → List Packet → Status × List Packet
  send_to ip port msg out =
      if E.is_address ip
      then (finished, out ++ record { ip = ip; port = port; body = msg } ∷ [])
      else (failed, out)
