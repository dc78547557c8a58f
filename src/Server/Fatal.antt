-- ===== src/Server/Fatal.antt =====
-- A datagram that ends a node (server.cpp): a "ticker" with a description that has no endpoint.
use nat.Prelude.{
  ℕ, ◌≤◌, Str, str_eq, false, codes, none, some, true, List, ◌≡◌, ◌≢◌, refl, ◌∙◌, length, Bool,
}
use nat.StdMap.{find}
use nat.External.{Env, IsPlain}
use nat.Effect.{done, fails, exception, final, ◌>>=◌, if◌run◌else◌}
use nat.Describe.{string_at}
use nat.Server.State.{Server, erase_ticker, send, start_receive}
use nat.Server.Messages.{ticker_msg, ticker_res_msg}
use nat.Server.Moved.{find-store_node}
use nat.Server.Connect.{store_node}
use nat.Server.Ticker.{ticker, ticker_key}
use nat.Server.Timer.{timer_round}
use nat.Server.Buffer.{handle_receive-parsed}
use nat.Server.Receive.{
  Datagram, no_error, buffer_size, dispatch, typed, parsed, then_listen, handle_receive,
}
use nat.Server.Invariant.{Reach, receives}
use nat.Server.Start.{start}
use nat.Server.Unreadable.{timer_round-lacking}
use nat.Server.Probes.{IsFromPlain, Reach-AllProbes}

module _ {J : Type 0} (E : Env J) (node id : Str) (fs : List (Str × J)) where
  abbrev news : J
  news = ticker_msg E node (E.obj fs) id

  ticker-stored :
      (ip : Str) (port : ℕ) (s : Server J)
      → (t : Server J) × (ticker E ip port news s ≡ done tt t)
        × (find node t.host_list ≡ some (E.dump (E.obj fs)))
  unfolding ticker ticker_msg string_at find str_eq erase_ticker send ◌>>=◌ if◌run◌else◌
  ticker-stored ip port s =
      let (e, stored) = find-store_node E node (E.obj fs) s in
      let r = final (store_node E node (E.obj fs) s) in
      let sent = final (send E ip port (ticker_res_msg E s.node_id id) r) in
      (
        final (erase_ticker (ticker_key ip port) sent),
        rw
            (
              E.at-obj (codes "data") _ (E.obj fs) refl,
              E.at-obj (codes "msgid") _ (E.str id) refl,
              E.get_string-str,
              E.at-obj (codes "nodeID") _ (E.str node) refl,
              E.get_string-str,
              E.is_null-obj,
              e,
            )
            refl,
        stored,
      )

  dispatched-ticker :
      (d : Datagram) (s : Server J)
      → parsed E d (some news) s ≡ then_listen E (ticker E d.ip d.port news) s
  unfolding parsed typed dispatch ticker_msg string_at find str_eq ◌>>=◌ if◌run◌else◌
  dispatched-ticker d s =
      rw
        (
          E.find_field-obj,
          E.get_string-str,
          E.at-obj (codes "nodeID") _ (E.str node) refl,
          E.get_string-str,
        )
        refl

  -- A node, its datagrams from addresses without an underscore, gets one more, whole and from another
  -- address than its own: a "ticker" with an object as its data that has no field "endpoint". It
  -- handles the datagram to the end, and the next round of the timer throws, whenever it is.
  pub timer_round-ticker :
      (rip : Str) (rport sport : ℕ) (flag : Bool) (sip : Str) (d : Datagram) (s : Server J)
      (now : ℕ)
      → Reach E IsFromPlain (start E rip rport sport flag sip) s
      → IsPlain d.ip
      → find (codes "endpoint") fs ≡ none
      → d.bytes ≡ E.dump (ticker_msg E node (E.obj fs) id)
      → length d.bytes ≤ buffer_size
      → d.ip ≢ s.local_ip
      → (t : Server J) × (handle_receive E no_error d s ≡ done tt t)
        × (u : Server J) × (timer_round E now t ≡ fails exception u)
  unfolding then_listen start_receive ◌>>=◌ if◌run◌else◌
  timer_round-ticker rip rport sport flag sip d s now r plain missing same fits away =
      let deaf : Server J = record s { receiving = false } in
      let (t, e, stored) = ticker-stored d.ip d.port deaf in
      let heard : Server J = record t { receiving = true } in
      let handled : handle_receive E no_error d s ≡ done tt heard =
        handle_receive-parsed E d news s same fits away ∙ rw (dispatched-ticker d deaf, e) refl in
      let (u, thrown) =
        timer_round-lacking E node now heard
          (Reach-AllProbes E rip rport sport flag sip (receives no_error d plain r handled))
          (record { fields = fs; known = stored; missing = missing }) in
      (heard, handled, u, thrown)
