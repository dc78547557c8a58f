-- ===== src/Echo/Command.antt =====
-- materialtest.cpp: `main`.
use nat.Prelude.{
  ℕ, ◌-◌, ◌%◌, ◌^◌, ◌<◌, Str, SignedInt, to_string, atoi, atoi-to_string, true, false, List, [],
  ◌∷◌, ◌≡◌, arith,
}
use nat.Effect.{M, done, pure, defined, ◌>>=◌}
use nat.Echo.{Callback, EchoServer, serve}

-- How the program ends, or the port on which its four threads serve for ever.
pub data Launch : Type 0 where
  exits : ℕ → Launch
  serves : ℕ → EchoServer → Launch

-- An `int` as a `short`, and that as the unsigned port of an endpoint.
unfoldable pub port_number : SignedInt → ℕ
port_number (false, n) = n % 2 ^ 16
port_number (true, n) = (2 ^ 16 - n % 2 ^ 16) % 2 ^ 16

-- The program's name is the first argument. The usage goes to the error output.
unfoldable pub main : (ℕ → Callback) → List Str → M (Unit {0}) Launch
main memory (program ∷ port ∷ []) = do
  n ← defined (atoi port)
  pure (serves (port_number n) (serve memory))
main memory _ = pure (exits 1)

-- Given a port below 2 ^ 16 in decimal, the program serves on that port.
pub main-to_string :
    (memory : ℕ → Callback) (program : Str) (port : ℕ)
    → port < 2 ^ 16
    → main memory (program ∷ to_string port ∷ []) tt ≡ done (serves port (serve memory)) tt
unfolding main port_number ◌>>=◌
main-to_string memory program port h = rw (atoi-to_string port (omega arith)) (ground arith)
