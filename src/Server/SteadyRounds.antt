-- ===== src/Server/SteadyRounds.antt =====
-- The rest of a round of the timer (`threadhandle`, server.cpp) on a node whose texts are descriptions,
-- and round after round of it.
use nat.Prelude.{ℕ, Str, str_eq, leb, true, false, ◌||◌, [], ◌∷◌, List, some, ◌≡◌, refl}
use nat.StdMap.{StdMap}
use nat.StdMap.Values.{erase-AllValues}
use nat.External.{Env}
use nat.Effect.{M, done, pure, require, ◌>>=◌, if◌run◌else◌}
use nat.Effect.Returns.{
  Returns-pure, Returns-modify, Returns-if, Returns-bind, Returns-require, Returns-gets,
}
use nat.Describe.{node_ip, node_port}
use nat.Server.State.{Server, with_hosts, with_ticker_num, erase_ticker, send}
use nat.Server.Route.{notify, update_route_info}
use nat.Server.Ticker.{ticker_key}
use nat.Server.Timer.{
  prune_hosts, expire_ticker, sweep_tickers, tick_host, tick_hosts, list_msg_queue, timer_round,
  package_num,
}
use nat.Server.Threads.{threadhandle}
use nat.Server.Readable.{IsReadable, AllReadable, IsHealthy}
use nat.Server.Steady.{Fine, sweep_checks-Fine}

module _ {J : Type 0} (E : Env J) where
  pub parsed-text : (text : Str) (r : IsReadable E text) → E.parse text ≡ some (E.obj r.fields)
  parsed-text text r = rw (r.shape) (E.parse-dump (E.obj r.fields))

  -- What is read from a text that can be read.
  reads-Fine :
      {A : Type 0} (text : Str) (r : IsReadable E text) (k : J → Str → ℕ → M (Server J) A)
      (s : Server J)
      → Fine E (k (E.obj r.fields) r.ip r.port) s
      → Fine E
          (do
            item ← require (E.parse text)
            ip ← require (node_ip E item)
            port ← require (node_port E item)
            k item ip port)
          s
  reads-Fine text r k s h =
      Returns-require _ _ (E.obj r.fields) _ s (parsed-text text r)
        (Returns-require _ _ r.ip _ s r.ip_there (Returns-require _ _ r.port _ s r.port_there h))

  send-Fine :
      (ip : Str) (port : ℕ) (msg : J) (s : Server J) → IsHealthy E s → Fine E (send E ip port msg) s
  unfolding send
  send-Fine ip port msg s h = Returns-modify _ _ s (record { hosts = h.hosts; probes = h.probes })

  prune_hosts-Fine :
      (key : Str) (hosts : StdMap Str) (s : Server J)
      → AllReadable E hosts
      → IsHealthy E s
      → Fine E (prune_hosts E key hosts) s
  unfolding prune_hosts with_hosts
  prune_hosts-Fine key [] s r h = Returns-pure _ tt s h
  prune_hosts-Fine key ((k, v) ∷ hosts) s r h = reads-Fine v r.0 _ s (
      Returns-bind _ _ _ s
        (Returns-if _ (str_eq (ticker_key r.0.ip r.0.port) key) _ _ s
          (λ q. Returns-modify _ _ s (record {
            hosts = erase-AllValues (IsReadable E) k s.host_list h.hosts;
            probes = h.probes;
          }))
          (λ q. Returns-pure _ tt s h))
        λ x t g. prune_hosts-Fine key hosts t r.1 g)

  expire_ticker-Fine :
      (key : Str) (n : ℕ) (s : Server J) → IsHealthy E s → Fine E (expire_ticker E key n) s
  unfolding expire_ticker erase_ticker
  expire_ticker-Fine key n s h =
      Returns-if _ (leb package_num n) _ _ s
        (λ q. Returns-gets _ _ _ s (
          Returns-bind _ _ _ s (prune_hosts-Fine key s.host_list s h.hosts h) λ x t g.
            Returns-bind _ _ _ t
              (Returns-modify _ _ t (record { hosts = g.hosts; probes = g.probes }))
              λ y u k. Returns-pure _ true u k))
        (λ q. Returns-pure _ false s h)

  sweep_tickers-Fine :
      (tickers : StdMap ℕ) (s : Server J) → IsHealthy E s → Fine E (sweep_tickers E tickers) s
  unfolding sweep_tickers
  sweep_tickers-Fine [] s h = Returns-pure _ false s h
  sweep_tickers-Fine ((key, n) ∷ tickers) s h =
      Returns-bind _ _ _ s (expire_ticker-Fine key n s h) λ one t g.
        Returns-bind _ _ _ t (sweep_tickers-Fine tickers t g) λ more u k. Returns-pure _ _ u k

  pub tick_host-Fine :
      (own : Str) (info : J) (k v : Str) (r : IsReadable E v) (s : Server J)
      → IsHealthy E s
      → Fine E (tick_host E own info k (E.obj r.fields)) s
  unfolding tick_host with_ticker_num
  tick_host-Fine own info k v r s h = Returns-require _ _ r.ip _ s r.ip_there (
      Returns-require _ _ r.port _ s r.port_there (
        Returns-if _ (str_eq own k) _ _ s (λ q. Returns-pure _ tt s h)
          (λ q.
            Returns-bind _ _ _ s (send-Fine r.ip r.port _ s h)
              λ x t g. Returns-modify _ _ t (record { hosts = g.hosts; probes = g.probes }))))

  tick_hosts-Fine :
      (own : Str) (info : J) (hosts : StdMap Str) (s : Server J)
      → AllReadable E hosts
      → IsHealthy E s
      → Fine E (tick_hosts E own info hosts) s
  unfolding tick_hosts
  tick_hosts-Fine own info [] s r h = Returns-pure _ tt s h
  tick_hosts-Fine own info ((k, v) ∷ hosts) s r h =
      Returns-require _ _ (E.obj r.0.fields) _ s (parsed-text v r.0) (
        Returns-bind _ _ _ s (tick_host-Fine own info k v r.0 s h)
          λ x t g. tick_hosts-Fine own info hosts t r.1 g)

  pub tell_host-Fine :
      (msg : J) (own k v : Str) (r : IsReadable E v) (s : Server J)
      → IsHealthy E s
      → Fine E
          (if str_eq k own run pure tt else do
            ip ← require (node_ip E (E.obj r.fields))
            port ← require (node_port E (E.obj r.fields))
            send E ip port msg)
          s
  tell_host-Fine msg own k v r s h =
      Returns-if _ (str_eq k own) _ _ s (λ q. Returns-pure _ tt s h)
        (λ q.
          Returns-require _ _ r.ip _ s r.ip_there
            (Returns-require _ _ r.port _ s r.port_there (send-Fine r.ip r.port msg s h)))

  notify-Fine :
      (msg : J) (own : Str) (hosts : StdMap Str) (s : Server J)
      → AllReadable E hosts
      → IsHealthy E s
      → Fine E (notify E msg own hosts) s
  unfolding notify
  notify-Fine msg own [] s r h = Returns-pure _ tt s h
  notify-Fine msg own ((k, v) ∷ hosts) s r h =
      Returns-require _ _ (E.obj r.0.fields) _ s (parsed-text v r.0) (
        Returns-bind _ _ _ s (tell_host-Fine msg own k v r.0 s h)
          λ x t g. notify-Fine msg own hosts t r.1 g)

  update_route_info-Fine : (s : Server J) → IsHealthy E s → Fine E (update_route_info E) s
  unfolding update_route_info
  update_route_info-Fine s h =
      Returns-gets _ _ _ s (Returns-gets _ _ _ s (notify-Fine _ _ s.host_list s h.hosts h))

  pub list_msg_queue-Fine : (s : Server J) → IsHealthy E s → Fine E (list_msg_queue E) s
  unfolding list_msg_queue
  list_msg_queue-Fine s h =
      Returns-bind _ _ _ s (Returns-modify _ _ s (record { hosts = h.hosts; probes = h.probes }))
        λ x t g. Returns-gets _ _ _ t (
          Returns-if _ (leb 10 t.count) _ _ t
            (λ q. Returns-gets _ _ _ t (
              Returns-gets _ _ _ t (
                Returns-gets _ _ _ t (
                  Returns-gets _ _ _ t (
                    Returns-gets _ _ _ t (
                      Returns-bind _ _ _ t (send-Fine _ _ _ t g) λ y u k.
                        Returns-modify _ _ u (record { hosts = k.hosts; probes = k.probes })))))))
            (λ q. Returns-pure _ tt t g))

  pub timer_round-Fine : (now : ℕ) (s : Server J) → IsHealthy E s → Fine E (timer_round E now) s
  unfolding timer_round
  timer_round-Fine now s h = Returns-gets _ _ _ s (
      Returns-bind _ _ _ s (sweep_checks-Fine E now s.f_ck_time_map s h.probes h) λ late t g.
        Returns-gets _ _ _ t (
          Returns-bind _ _ _ t (sweep_tickers-Fine t.ticker_num t g) λ lost u k.
            Returns-gets _ _ _ u (
              Returns-gets _ _ _ u (
                Returns-gets _ _ _ u (
                  Returns-bind _ _ _ u
                    (tick_hosts-Fine u.node_id u.local_ep_info u.host_list u k.hosts k)
                    λ x v l.
                      Returns-bind _ _ _ v
                        (Returns-if _ (late || lost) _ _ v (λ q. update_route_info-Fine v l)
                          (λ q. Returns-pure _ tt v l))
                        λ y w m. list_msg_queue-Fine w m)))))

  -- A node of which every text in its list is that of an object whose first endpoint can be read, and
  -- every probe was started before the last second that fits an `int`, from an address without an
  -- underscore: however often the timer wakes, and whenever, each of its rounds returns, and leaves
  -- such a node.
  pub threadhandle-IsHealthy :
      (times : List ℕ) (s : Server J)
      → IsHealthy E s
      → (t : Server J) × (threadhandle E times s ≡ done tt t) × IsHealthy E t
  unfolding threadhandle ◌>>=◌
  threadhandle-IsHealthy [] s h = (s, refl, h)
  threadhandle-IsHealthy (now ∷ times) s h =
      let (x, t, e, g) = timer_round-Fine now s h in
      let (u, f, k) = threadhandle-IsHealthy times t g in (u, rw e f, k)
