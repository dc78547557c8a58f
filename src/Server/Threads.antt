-- ===== src/Server/Threads.antt =====
-- The threads of a node (server.cpp): the timer's loop, the thread that only sleeps, and runs in
-- which the handler and the timer take turns.
use nat.Prelude.{ℕ, zero, suc, List, [], ◌∷◌}
use nat.External.{Env}
use nat.Effect.{M, pure, gets, ◌>>=◌, ◌>>◌, if◌run◌else◌}
use nat.Server.State.{Server}
use nat.Server.Receive.{Datagram, RecvError, handle_receive}
use nat.Server.Timer.{timer_round}

-- What happens at a node: a receive completes, the clock shows a time when the timer wakes, or the
-- other thread wakes.
pub data Event : Type 0 where
  arrives : RecvError → Datagram → Event
  wakes : ℕ → Event
  sleeps : Event

-- `msgThread`: its loop sleeps, and changes nothing.
unfoldable pub msg_thread : {S : Type 0} → ℕ → M S (Unit {0})
msg_thread zero = pure tt
msg_thread (suc n) = msg_thread n

module _ {J : Type 0} (E : Env J) where
  -- `threadhandle`, for as many rounds as there are times at which it wakes.
  unfoldable pub threadhandle : List ℕ → M (Server J) (Unit {0})
  threadhandle [] = pure tt
  threadhandle (now ∷ times) = do timer_round E now; threadhandle times

  -- Without a receive that waits, a datagram reaches nobody.
  unfoldable pub happen : Event → M (Server J) (Unit {0})
  happen (arrives err d) = do
    waits ← gets (λ s. s.receiving)
    if waits run handle_receive E err d else pure tt
  happen (wakes now) = threadhandle (now ∷ [])
  happen sleeps = msg_thread 1

  -- The node over a sequence of events.
  unfoldable pub happen_all : List Event → M (Server J) (Unit {0})
  happen_all [] = pure tt
  happen_all (e ∷ es) = do happen e; happen_all es
