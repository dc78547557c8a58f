-- ===== src/Server/Live/Round.antt =====
-- A round of the timer (`threadhandle`, server.cpp) with the loops as they run, and the one of Timer.
use nat.Prelude.{ℕ, Str, leb, false, ◌||◌, ◌≡◌, refl, ◌∙◌, inl, inr, Bool-cases}
use nat.StdMap.{erase}
use nat.StdMap.Cursor.{erase-IsLeft}
use nat.External.{Env}
use nat.Effect.{◌>>=◌, if◌run◌else◌}
use nat.Effect.Keeps.{Keeps, Keeps-bind, Keeps-require, Keeps-if, Keeps-modify, Keeps-pure}
use nat.Effect.Iterate.{loop-each, Walks}
use nat.Server.State.{
  Server, with_hosts, with_ticker_num, with_checks, erase_ticker, erase_check, assign_node,
}
use nat.Server.Timer.{check_entry, sweep_checks, prune_hosts, expire_ticker, sweep_tickers}
use nat.Server.Invariant.{IsOrdered, IsOrdered-IsTimed}
use nat.Server.TimerStable.{IsTimed, Keeps-check_entry, Keeps-expire_ticker}
use nat.Server.Live.{both, prune_host, prune_live, expire_live, tickers_live, checks_live}
use nat.Server.Live.Same.{each-prune_hosts, each-sweep_tickers, each-sweep_checks}

module _ {J : Type 0} (E : Env J) where
  pub timed : IsTimed E IsOrdered
  timed = IsOrdered-IsTimed E

  pub Keeps-prune_host :
      {P : Server J → Type 0} (key k v : Str)
      → ((s : Server J) → P s → P (with_hosts (erase k s.host_list) s))
      → Keeps P (prune_host E key k v)
  unfolding prune_host
  Keeps-prune_host key k v drop = Keeps-bind _ _ (Keeps-require _) λ item.
      Keeps-bind _ _ (Keeps-require _) λ ip.
        Keeps-bind _ _ (Keeps-require _)
          λ port. Keeps-if _ _ _ (Keeps-modify _ drop) (Keeps-pure tt)

  pub prune-Walks :
      (key : Str) → Walks (λ s. s.host_list) both tt IsOrdered (prune_host E key) (prune_host E key)
  unfolding with_hosts
  prune-Walks key = record {
    sorted = λ s i. i.hosts;
    same = λ k v s i. refl;
    kept = λ k v. Keeps-prune_host key k v (λ s. timed.drop s k);
    leaves =
        λ k v s i. Keeps-prune_host key k v (λ r. erase-IsLeft k s.host_list r.host_list i.hosts);
  }

  prune_live-prune_hosts :
      (key : Str) (s : Server J)
      → IsOrdered s
      → prune_live E key s ≡ prune_hosts E key s.host_list s
  unfolding prune_live
  prune_live-prune_hosts key s i =
      loop-each (λ r. r.host_list) both tt (prune-Walks key) s i
      ∙ each-prune_hosts E key s.host_list s

  expire_live-expire_ticker :
      (key : Str) (n : ℕ) (s : Server J)
      → IsOrdered s
      → expire_live E key n s ≡ expire_ticker E key n s
  unfolding expire_live expire_ticker if◌run◌else◌ ◌>>=◌
  expire_live-expire_ticker key n s i = elim (Bool-cases (leb 60 n)) [
    | inl late ↦ rw (late, prune_live-prune_hosts key s i) refl
    | inr early ↦ rw early refl
  ]

  pub tickers-Walks :
      Walks (λ s. s.ticker_num) ◌||◌ false IsOrdered (expire_live E) (expire_ticker E)
  unfolding with_hosts with_ticker_num erase_ticker
  tickers-Walks = record {
    sorted = λ s i. i.tickers;
    same = expire_live-expire_ticker;
    kept = λ key n. Keeps-expire_ticker E key timed.drop (timed.untick key) n;
    leaves = λ key n s i.
        Keeps-expire_ticker E key (λ r k h. h)
          (Keeps-modify _ (λ r. erase-IsLeft key s.ticker_num r.ticker_num i.tickers)) n;
  }

  pub tickers_live-sweep_tickers :
      (s : Server J) → IsOrdered s → tickers_live E s ≡ sweep_tickers E s.ticker_num s
  unfolding tickers_live
  tickers_live-sweep_tickers s i =
      loop-each (λ r. r.ticker_num) ◌||◌ false tickers-Walks s i
      ∙ each-sweep_tickers E s.ticker_num s

  pub checks-Walks :
      (now : ℕ)
      → Walks (λ s. s.f_ck_time_map) ◌||◌ false IsOrdered (check_entry E now) (check_entry E now)
  unfolding with_hosts with_checks assign_node erase_check
  checks-Walks now = record {
    sorted = λ s i. i.checks;
    same = λ k v s i. refl;
    kept = λ id key. Keeps-check_entry E id timed.assign (timed.uncheck id) now key;
    leaves = λ id key s i.
        Keeps-check_entry E id (λ node info. Keeps-modify _ (λ r h. h))
          (Keeps-modify _ (λ r. erase-IsLeft id s.f_ck_time_map r.f_ck_time_map i.checks)) now key;
  }

  pub checks_live-sweep_checks :
      (now : ℕ) (s : Server J)
      → IsOrdered s
      → checks_live E now s ≡ sweep_checks E now s.f_ck_time_map s
  unfolding checks_live
  checks_live-sweep_checks now s i =
      loop-each (λ r. r.f_ck_time_map) ◌||◌ false (checks-Walks now) s i
      ∙ each-sweep_checks E now s.f_ck_time_map s
