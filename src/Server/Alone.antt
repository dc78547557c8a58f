-- ===== src/Server/Alone.antt =====
-- A filtering probe that no node can be asked for.
use nat.Prelude.{ℕ, Str, str_eq, none, [], ◌≡◌, refl}
use nat.External.{Env}
use nat.Effect.{done, fails, exception, ◌>>=◌}
use nat.Describe.{string_at, first_endpoint, node_ip}
use nat.ManagerHost.{get_public_node}
use nat.Server.State.{Server, public_node}
use nat.Server.Detect.{neighbour, start_check}

module _ {J : Type 0} (E : Env J) where
  node_ip-null : node_ip E E.null ≡ none
  unfolding node_ip first_endpoint string_at
  node_ip-null = rw (E.at-null, E.first-null, E.at-null, E.get_string-null) refl

  neighbour-null :
      (s : Server J)
      → s.local_ep_info ≡ E.null
      → get_public_node E s.node_id s.man_host s ≡ done [] s
      → neighbour E s ≡ done E.null s
  unfolding neighbour public_node str_eq ◌>>=◌
  neighbour-null s private none_found = rw (none_found, private, E.parse-dump E.null) refl

  -- A node without a description of itself, as one is that was not started as public, that knows no
  -- public node but itself: the filtering probe that a detect from behind a NAT makes it start throws.
  pub start_check-alone :
      (now : ℕ) (ip : Str) (port : ℕ) (node : Str) (s : Server J)
      → s.local_ep_info ≡ E.null
      → get_public_node E s.node_id s.man_host s ≡ done [] s
      → start_check E now ip port node s ≡ fails exception s
  unfolding start_check ◌>>=◌
  start_check-alone now ip port node s private none_found =
      rw (neighbour-null s private none_found, node_ip-null) refl
