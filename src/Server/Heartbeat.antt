-- ===== src/Server/Heartbeat.antt =====
-- What the handling of a "ticker" (server.cpp) does to the counts of heartbeats.
use nat.Prelude.{ℕ, Str, str_eq, none, ◌≡◌, refl, sym, ap, ◌∙◌, if◌then◌else◌}
use nat.External.{Env}
use nat.StdMap.{StdMap, find, erase, IsSorted, find-erase}
use nat.Effect.{M, done, final, ◌>>=◌}
use nat.Effect.Keeps.{
  Keeps, keeps, at_state, Keeps-gets, Keeps-require, Keeps-if, Keeps-pure, keeps_rules,
}
use nat.Effect.Yields.{>>=-eq-done, modify-eq-done}
use nat.Server.State.{Server, with_ticker_num, add_node, assign_node, erase_ticker, send}
use nat.Server.Connect.{store_node}
use nat.Server.Ticker.{ticker, ticker_key}

module _ {J : Type 0} (E : Env J) where
  -- The counts of the heartbeats are the given ones.
  abbrev Counts : StdMap ℕ → Server J → Type 0
  Counts m s = s.ticker_num ≡ m

  module _ (m : StdMap ℕ) where
    Counts-add_node : (id info : Str) → Keeps (Counts m) (add_node id info)
    unfolding add_node ◌>>=◌
    Counts-add_node id info = keeps (λ s h. h)

    Counts-assign_node : (id info : Str) → Keeps (Counts m) (assign_node id info)
    unfolding assign_node ◌>>=◌
    Counts-assign_node id info = keeps (λ s h. h)

    Counts-send : (ip : Str) (port : ℕ) (msg : J) → Keeps (Counts m) (send E ip port msg)
    unfolding send ◌>>=◌
    Counts-send ip port msg = keeps (λ s h. h)

    Counts-store_node : (node : Str) (info : J) → Keeps (Counts m) (store_node E node info)
    unfolding store_node
    Counts-store_node node info = search (keeps_rules, Counts-add_node, Counts-assign_node) depth 12

    -- Code that keeps the counts, where it returns.
    Counts-done :
        {A : Type 0} (c : M (Server J) A) (s : Server J) (a : A) (t : Server J)
        → Keeps (Counts m) c
        → c s ≡ done a t
        → Counts m s
        → Counts m t
    Counts-done c s a t k e h = rw (ap final e) at (at_state k s h)

  -- The "ticker" handler, but for its last step, keeps the counts.
  ticker-untick :
      (ip : Str) (port : ℕ) (msg : J) (s t : Server J)
      → ticker E ip port msg s ≡ done tt t
      → (r : Server J) × (r.ticker_num ≡ s.ticker_num)
        × (erase_ticker (ticker_key ip port) r ≡ done tt t)
  unfolding ticker
  ticker-untick ip port msg s t h =
      let (own, s1, e1, h1) = >>=-eq-done _ _ s tt t h in
      let (content, s2, e2, h2) = >>=-eq-done _ _ s1 tt t h1 in
      let (msg_id, s3, e3, h3) = >>=-eq-done _ _ s2 tt t h2 in
      let (node, s4, e4, h4) = >>=-eq-done _ _ s3 tt t h3 in
      let (x, s5, e5, h5) = >>=-eq-done _ _ s4 tt t h4 in
      let (y, s6, e6, h6) = >>=-eq-done _ _ s5 tt t h5 in
      let m = s.ticker_num in
      let k1 = Counts-done m _ s own s1 (Keeps-gets _) e1 refl in
      let k2 = Counts-done m _ s1 content s2 (Keeps-require _) e2 k1 in
      let k3 = Counts-done m _ s2 msg_id s3 (Keeps-require _) e3 k2 in
      let k4 = Counts-done m _ s3 node s4 (Keeps-require _) e4 k3 in
      let k5 =
        Counts-done m _ s4 x s5 (Keeps-if _ _ _ (Keeps-pure tt) (Counts-store_node m node content))
          e5 k4 in
      (s6, Counts-done m _ s5 y s6 (Counts-send m _ _ _) e6 k5, h6)

  -- Where the handling of a "ticker" returns, the unanswered heartbeats to the endpoint that it came
  -- from are forgotten, and every other count stays.
  pub find-ticker :
      (ip : Str) (port : ℕ) (msg : J) (s t : Server J) (j : Str)
      → IsSorted s.ticker_num
      → ticker E ip port msg s ≡ done tt t
      → find j t.ticker_num ≡ (if str_eq (ticker_key ip port) j then none else find j s.ticker_num)
  unfolding erase_ticker with_ticker_num
  find-ticker ip port msg s t j sorted h =
      let (r, same, e) = ticker-untick ip port msg s t h in
      let key = ticker_key ip port in
      ap (λ u. find j u.ticker_num) (sym (modify-eq-done _ r t e))
      ∙ ap (λ m. find j (erase key m)) same
      ∙ find-erase key j s.ticker_num sorted
