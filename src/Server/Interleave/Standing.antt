-- ===== src/Server/Interleave/Standing.antt =====
-- The timer's iterators among calls of the handler (server.cpp): what each is at is there yet.
use nat.Prelude.{Bool, ℕ, Str, Option, some}
use nat.StdMap.Iterator.{IsAt, IsAt-insert}
use nat.External.{Env}
use nat.Effect.{modify, ◌>>=◌}
use nat.Effect.Keeps.{Keeps, keeps, Keeps-both}
use nat.ManagerHost.{add_new_node}
use nat.Server.State.{Server, with_checks, add_node, add_check, send, gen_uuid}
use nat.Server.Detect.{detect}
use nat.Server.Detect.Keeps.{IsListed, Keeps-detect}
use nat.Server.Interleave.{Place, asleep, checking, counting, pruning, ticking, telling, listing}

-- Every iterator of the thread is at an entry that is there, or at `end()`.
abbrev pub Stands : {J : Type 0} → Place J → Server J → Type 0
Stands asleep s = Unit
Stands (checking p) s = IsAt p s.f_ck_time_map
Stands (counting p) s = IsAt p s.ticker_num
Stands (pruning key p) s = IsAt (some key) s.ticker_num × IsAt p s.host_list
Stands (ticking p) s = IsAt p s.host_list
Stands (telling msg p) s = IsAt p s.host_list
Stands listing s = Unit

module _ {J : Type 0} (E : Env J) where
  module _ (p : Option Str) (now : ℕ) (ip : Str) (port : ℕ) where
    hosts-IsListed : IsListed E (λ s. IsAt p s.host_list) now ip port
    unfolding add_node add_new_node add_check with_checks send gen_uuid modify ◌>>=◌
    hosts-IsListed = record {
      add = λ id info. keeps (λ s h. IsAt-insert p id info s.host_list h);
      sends = λ to at msg. keeps (λ s h. h);
      check = λ id node. keeps (λ s h. h);
      draw = keeps (λ s h. h);
    }

    checks-IsListed : IsListed E (λ s. IsAt p s.f_ck_time_map) now ip port
    unfolding add_node add_new_node add_check with_checks send gen_uuid modify ◌>>=◌
    checks-IsListed = record {
      add = λ id info. keeps (λ s h. h);
      sends = λ to at msg. keeps (λ s h. h);
      check = λ id node. keeps (λ s h. IsAt-insert p id _ s.f_ck_time_map h);
      draw = keeps (λ s h. h);
    }

    tickers-IsListed : IsListed E (λ s. IsAt p s.ticker_num) now ip port
    unfolding add_node add_new_node add_check with_checks send gen_uuid modify ◌>>=◌
    tickers-IsListed = record {
      add = λ id info. keeps (λ s h. h);
      sends = λ to at msg. keeps (λ s h. h);
      check = λ id node. keeps (λ s h. h);
      draw = keeps (λ s h. h);
    }

  -- The handling of a "detect" adds entries and takes none away.
  pub Keeps-Stands :
      (place : Place J) (now : ℕ) (ip : Str) (port : ℕ) (node : Str) (msg : J)
      → Keeps (Stands place) (detect E now ip port node msg)
  Keeps-Stands asleep now ip port node msg = keeps (λ s h. tt)
  Keeps-Stands (checking p) now ip port node msg =
      Keeps-detect E (checks-IsListed p now ip port) node msg
  Keeps-Stands (counting p) now ip port node msg =
      Keeps-detect E (tickers-IsListed p now ip port) node msg
  Keeps-Stands (pruning key p) now ip port node msg =
      Keeps-both (Keeps-detect E (tickers-IsListed (some key) now ip port) node msg)
        (Keeps-detect E (hosts-IsListed p now ip port) node msg)
  Keeps-Stands (ticking p) now ip port node msg =
      Keeps-detect E (hosts-IsListed p now ip port) node msg
  Keeps-Stands (telling m p) now ip port node msg =
      Keeps-detect E (hosts-IsListed p now ip port) node msg
  Keeps-Stands listing now ip port node msg = keeps (λ s h. tt)

  pub Stands-heard :
      (place : Place J) (s : Server J) (b : Bool)
      → Stands place s
      → Stands place (record s { receiving = b })
  Stands-heard asleep s b h = h
  Stands-heard (checking p) s b h = h
  Stands-heard (counting p) s b h = h
  Stands-heard (pruning key p) s b h = h
  Stands-heard (ticking p) s b h = h
  Stands-heard (telling msg p) s b h = h
  Stands-heard listing s b h = h
