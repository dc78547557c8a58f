-- ===== src/Client/LocalIp.antt =====
-- `client::LocalIp` (client.cpp).
use nat.Prelude.{Str, codes, Option, none, some, [], get_elem?}
use nat.Net.{Net}
use nat.Effect.{M, pure, require, defined, attempt, ◌>>=◌}

abbrev pub text_or_empty : Option Str → Str
text_or_empty none = []
text_or_empty (some text) = text

module _ {S : Type 0} (N : Net) where
  -- The address that the host reaches the resolved one from. `*endpoints` of an empty range is
  -- undefined.
  unfoldable pub own_address : M S Str
  own_address = do
    endpoints ← require (N.resolve (codes "www.baidu.com"))
    endpoint ← defined (get_elem? endpoints 0)
    own ← require (N.connect endpoint)
    pure own.0

  -- The argument is not used.
  unfoldable pub local_ip : Str → M S Str
  local_ip ip = do r ← attempt own_address; pure (text_or_empty r)
