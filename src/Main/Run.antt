-- ===== src/Main/Run.antt =====
-- main.cpp: `main`, up to the point where it waits in `io_service.run()`.
use nat.Prelude.{ℕ, Str, codes, str_eq, Option, none, some, List, [], ◌∷◌}
use nat.StdMap.{find}
use nat.External.{Env}
use nat.Effect.{Outcome, done, fails, M, pure, attempt, ◌>>=◌, ◌>>◌, if◌run◌else◌}
use nat.Client.{Packet}
use nat.Server.State.{Server}
use nat.Main.{bind, servermode}
use nat.Main.Options.{Call, Parsed, calls, refused, Cli, app, value_of}

-- What the process has sent by `bind`, and the node that it runs.
pub record Process (J : Type 0) : Type 0 where
  pub sent : List Packet
  pub node : Option (Server J)

-- `main` returns a code, or runs a node.
pub data Ending : Type 0 where
  exits : ℕ → Ending
  serving : Ending

module _ {J : Type 0} (E : Env J) where
  abbrev pub with_sent : {A : Type 0} → Process J → Outcome (List Packet) A → Outcome (Process J) A
  with_sent p (done a out) = done a (record p { sent = out })
  with_sent p (fails f out) = fails f (record p { sent = out })

  abbrev pub with_node :
      {A : Type 0} → Process J → Outcome (Option (Server J)) A → Outcome (Process J) A
  with_node p (done a n) = done a (record p { node = n })
  with_node p (fails f n) = fails f (record p { node = n })

  unfoldable pub call_bind : Call → M (Process J) (Unit {0})
  call_bind c p = with_sent p (
      bind E (value_of (codes "-s,--server") c) (value_of (codes "-P,--remotePort") c)
        (value_of (codes "-p,--localPort") c) p.sent)

  unfoldable pub call_servermode : Call → M (Process J) (Unit {0})
  call_servermode c p = with_node p (
      servermode E (value_of (codes "-s,--remoteserverip") c) (value_of (codes "-P,--remoteport") c)
        (value_of (codes "-p,--localport") c) (find (codes "-m,--mainnode") c.flags)
        (value_of (codes "-i,--ip") c) p.node)

  -- `none` where the callback of `servermode` has caught an exception.
  abbrev after_servermode : Option (Unit {0}) → M (Process J) Ending → M (Process J) Ending
  after_servermode (some x) m = pure serving
  after_servermode none m = m

  -- The callbacks in order. The `return -1` of the one of `servermode` after an exception is that of
  -- the lambda, and CLI11 does not see it: what follows runs as if nothing had happened.
  unfoldable pub call_all : List Call → M (Process J) Ending
  call_all [] = pure (exits 0)
  call_all (c ∷ rest) =
      if str_eq c.name (codes "bind")
      run (do call_bind c; call_all rest)
      else if str_eq c.name (codes "servermode")
      run (do started ← attempt (call_servermode c); after_servermode started (call_all rest))
      else call_all rest

  abbrev main_calls : Parsed → M (Process J) Ending
  main_calls (calls cs) = call_all cs
  main_calls (refused code) = pure (exits code)

  unfoldable pub main : Cli → List Str → M (Process J) Ending
  main cli argv = main_calls (cli app argv)
