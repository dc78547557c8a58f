-- ===== src/Server/LocalIp.antt =====
-- `udpServer::getLocalIP` and `udpServer::sendRequest` (server.cpp), which nothing calls.
use nat.Prelude.{
  ℕ, Str, codes, str_eq, none, some, false, List, [], ◌∷◌, ◌++◌, ◌≡◌, refl, get_elem?,
  if◌then◌else◌, Bool-cases, Option-cases, inl, inr, str_eq_sound,
}
use nat.Net.{Net, Endpoint}
use nat.Effect.{M, done, pure, require, defined, modify, attempt, ◌>>=◌}
use nat.Client.LocalIp.{own_address, local_ip}
use nat.Server.State.{Server}

module _ {J : Type 0} (N : Net) where
  -- An exception is caught and printed; `_localIp` then stays.
  unfoldable pub get_local_ip : M (Server J) (Unit {0})
  get_local_ip = do
    r ← attempt (do
      endpoints ← require (N.resolve (codes "www.baidu.com"))
      endpoint ← defined (get_elem? endpoints 0)
      own ← require (N.connect endpoint)
      modify (λ s. record s { local_ip = own.0 }))
    pure tt

  -- One datagram "test" to the discard port of the host itself, from a socket of its own. What the
  -- three arguments say is not used; what the send reports is ignored.
  unfoldable pub send_request : Str → Str → ℕ → M (Server J) (Unit {0})
  send_request msg to_ip to_port = do
    r ← attempt (do
      own ← require (N.connect (codes "127.0.0.1", 9))
      modify (λ s. record s {
        sent = s.sent ++ record { ip = codes "127.0.0.1"; port = 9; body = codes "test" } ∷ [];
      }))
    pure tt

  module _ (ip : Str) (s : Server J) where
    -- The two functions agree on the state `s` and the text.
    abbrev Agree : Str → Type 0
    Agree text =
        (local_ip N ip s ≡ done text s)
        × (get_local_ip s ≡ done tt (if str_eq text [] then s else record s { local_ip = text }))

    Agree-no_range : N.resolve (codes "www.baidu.com") ≡ none → Agree []
    unfolding local_ip own_address get_local_ip attempt str_eq ◌>>=◌
    Agree-no_range e = (rw e refl, rw e refl)

    Agree-no_route :
        (endpoint : Endpoint) (rest : List Endpoint)
        → N.resolve (codes "www.baidu.com") ≡ some (endpoint ∷ rest)
        → N.connect endpoint ≡ none
        → Agree []
    unfolding local_ip own_address get_local_ip attempt str_eq ◌>>=◌
    Agree-no_route endpoint rest e f = (rw (e, f) refl, rw (e, f) refl)

    Agree-found :
        (endpoint own : Endpoint) (rest : List Endpoint)
        → N.resolve (codes "www.baidu.com") ≡ some (endpoint ∷ rest)
        → N.connect endpoint ≡ some own
        → Agree own.0
    unfolding local_ip own_address get_local_ip attempt str_eq ◌>>=◌
    Agree-found endpoint own rest e f = (rw (e, f) refl, rw (e, f, not_empty) refl)
      where
        not_empty : str_eq own.0 [] ≡ false
        not_empty = elim (Bool-cases (str_eq own.0 [])) [
          | inl q ↦ absurd (N.connect-ne-nil endpoint own f (str_eq_sound own.0 [] q))
          | inr q ↦ q
        ]

    -- `getLocalIP` makes the node's address what `LocalIp` returns, whatever its argument, unless
    -- that is empty, as it is when a call on the network throws; then the address stays.
    pub get_local_ip-local_ip : (text : Str) × Agree text
    get_local_ip-local_ip = elim (Option-cases (N.resolve (codes "www.baidu.com"))) [
      | inl e ↦ ([], Agree-no_range e)
      | inr ([], e) ↦ absurd (N.resolve-ne-nil _ e)
      | inr (endpoint ∷ rest, e) ↦ elim (Option-cases (N.connect endpoint)) [
        | inl f ↦ ([], Agree-no_route endpoint rest e f)
        | inr (own, f) ↦ (own.0, Agree-found endpoint own rest e f)
      ]
    ]
