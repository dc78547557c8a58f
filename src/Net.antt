-- ===== src/Net.antt =====
-- What `LocalIp` and `getLocalIP` ask of Boost.Asio: a parameter. `none` is a thrown exception.
use nat.Prelude.{ℕ, Str, Option, some, List, [], ◌≡◌, ◌≢◌}

abbrev pub Endpoint : Type 0
Endpoint = Str × ℕ

pub record Net : Type 0 where
  -- `resolver.resolve` for UDP over IPv4; where it succeeds the range is not empty.
  pub resolve : Str → Option (List Endpoint)
  -- `socket.connect`, with the local endpoint that the socket then has; an address has a text.
  pub connect : Endpoint → Option Endpoint
  pub resolve-ne-nil : (host : Str) → resolve host ≢ some []
  pub connect-ne-nil : (e l : Endpoint) → connect e ≡ some l → l.0 ≢ []
