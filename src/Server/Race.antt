-- ===== src/Server/Race.antt =====
-- The timer thread and the receiver's thread (server.cpp) share `tickerNum` without a lock: what the
-- timer's loop over it finds when a "ticker" has been handled while it stood at an entry.
use nat.Prelude.{ℕ, Str, str_eq, Bool, Bool-cases, inl, inr, ◌≡◌, refl, if◌then◌else◌}
use nat.StdMap.{find, IsSorted}
use nat.External.{Env}
use nat.Effect.{M, done, fails, undefined, gets, defined, ◌>>=◌}
use nat.Server.State.{Server}
use nat.Server.Ticker.{ticker, ticker_key}
use nat.Server.Heartbeat.{find-ticker}
use nat.Server.Timer.{expire_ticker}

module _ {J : Type 0} (E : Env J) where
  -- The loop over `tickerNum` stands at the entry of `key`, and goes on with it: it reads the entry
  -- through its iterator.
  unfoldable pub resume_ticker : Str → M (Server J) Bool
  resume_ticker key = do
    tickers ← gets (λ s. s.ticker_num)
    n ← defined (find key tickers)
    expire_ticker E key n

  -- The handler of a "ticker" has returned while the timer's loop stood at an entry: from the entry of
  -- the endpoint that the ticker came from it cannot go on, which is undefined behaviour, since the
  -- handler erased it; from every other it goes on as it would have before, in the new state.
  pub resume_ticker-ticker :
      (ip : Str) (port : ℕ) (msg : J) (s t : Server J) (key : Str)
      → IsSorted s.ticker_num
      → ticker E ip port msg s ≡ done tt t
      → resume_ticker key t ≡ (
          if str_eq (ticker_key ip port) key
          then fails undefined t
          else (defined (find key s.ticker_num) >>= expire_ticker E key) t)
  unfolding resume_ticker ◌>>=◌
  resume_ticker-ticker ip port msg s t key sorted h =
      elim (Bool-cases (str_eq (ticker_key ip port) key)) [
        | inl here ↦ rw (find-ticker E ip port msg s t key sorted h, here) refl
        | inr other ↦ rw (find-ticker E ip port msg s t key sorted h, other) refl
      ]
