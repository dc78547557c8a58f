-- ===== src/Server/Interleave/Detects.antt =====
-- Runs of a node (server.cpp) whose timer's turns and calls of the handler fall in any order.
use nat.Prelude.{ℕ, Str, Bool, ◌≡◌, sym, subst, ◌∙◌}
use nat.External.{Env}
use nat.Effect.{Outcome, done, fails}
use nat.Effect.Keeps.{Keeps, after}
use nat.Server.State.{Server}
use nat.Server.Receive.{RecvError, Datagram, handle_receive}
use nat.Server.Detect.Handled.{IsDetect, Keeps-handle_detect}
use nat.Server.Readable.{IsHealthy}
use nat.Server.Newcomers.{Keeps-handle_receive, start-IsHealthy}
use nat.Server.Start.{start}
use nat.Server.Interleave.{Place, Timer, turn, Mixed, begins, handles, turns}
use nat.Server.Interleave.Standing.{Stands, Keeps-Stands, Stands-heard}
use nat.Server.Interleave.Safe.{IsSafe, turn-Goes}

module _ {J : Type 0} (E : Env J) where
  Stands-handle_receive :
      (place : Place J) (err : RecvError) (d : Datagram)
      → IsDetect E d
      → Keeps (Stands place) (handle_receive E err d)
  Stands-handle_receive place err d k =
      Keeps-handle_detect E d k (Keeps-Stands E place d.now d.ip d.port k.node _)
        (Stands-heard E place) err

  -- Where it returns, a turn leaves all safe.
  abbrev Safely : Outcome (Server J) (Timer J) → Type 0
  Safely (done t u) = IsSafe E t u
  Safely (fails f u) = ⊥

  Mixed-IsSafe :
      {s : Server J} {t : Timer J} {u : Server J}
      → Mixed E (IsDetect E) s t u
      → IsHealthy E s
      → IsSafe E t u
  Mixed-IsSafe begins h = record { healthy = h; stands = tt }
  Mixed-IsSafe (handles {t} {u} {v} err d k r e) h =
      let safe = Mixed-IsSafe r h in
      record {
        healthy = after (Keeps-handle_receive E err d k) u tt v safe.healthy e;
        stands = after (Stands-handle_receive t.place err d k) u tt v safe.stands e;
      }
  Mixed-IsSafe (turns {t} {t'} {u} {v} clock r e) h =
      let safe = Mixed-IsSafe r h in
      let (t1, u1, e1, safe1) = turn-Goes E clock t t.place u safe.healthy safe.stands in
      subst Safely (sym e1 ∙ e) safe1

  -- A node gets only "detect" messages, whole, while the time fits an `int` and from addresses without
  -- an underscore, and handles each to the end, wherever its timer's thread stands between two turns:
  -- then no turn of the timer ever fails, by an exception or by an iterator at an entry that is gone.
  pub turn-Mixed :
      (rip : Str) (rport port : ℕ) (flag : Bool) (ip : Str) (clock : ℕ) {t : Timer J} {s : Server J}
      → Mixed E (IsDetect E) (start E rip rport port flag ip) t s
      → (t' : Timer J) × (u : Server J) × (turn E clock t t.place s ≡ done t' u)
  turn-Mixed rip rport port flag ip clock {t} {s} r =
      let safe = Mixed-IsSafe r (start-IsHealthy E rip rport port flag ip) in
      let (t', u, e, next) = turn-Goes E clock t t.place s safe.healthy safe.stands in (t', u, e)
