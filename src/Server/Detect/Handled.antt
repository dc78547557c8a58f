-- ===== src/Server/Detect/Handled.antt =====
-- A datagram with a "detect" message, and what the handler (server.cpp) makes of it.
use nat.Prelude.{
  ◌≤◌, Str, codes, str_eq, int_max, some, Bool, true, false, ◌≡◌, refl, ap, ◌∙◌, length,
}
use nat.StdMap.{find}
use nat.External.{Env, IsPlain}
use nat.Effect.{◌>>=◌, if◌run◌else◌}
use nat.Effect.Keeps.{
  Keeps, keeps, at_state, Keeps-bind, Keeps-if, Keeps-pure, Keeps-gets, Keeps-modify,
}
use nat.Describe.{string_at}
use nat.Server.State.{Server, start_receive}
use nat.Server.Messages.{detect_msg, data_msg}
use nat.Server.Detect.{detect}
use nat.Server.Buffer.{parse-recv_buffer}
use nat.Server.Receive.{
  Datagram, RecvError, other_error, buffer_size, recv_buffer, then_listen, dispatch, typed, parsed,
  body, handle_receive,
}

module _ {J : Type 0} (E : Env J) where
  -- A datagram with a "detect" message, whole, that comes while the time fits an `int` and from an
  -- address without an underscore.
  pub record IsDetect (d : Datagram) : Type 0 where
    pub node : Str
    pub ip : Str
    pub port : Str
    pub same : d.bytes ≡ E.dump (detect_msg E node ip port)
    pub fits : length d.bytes ≤ buffer_size
    pub early : d.now ≤ int_max
    pub plain : IsPlain d.ip

  dispatched-detect :
      (node ip port : Str) (d : Datagram) (s : Server J)
      → parsed E d (some (detect_msg E node ip port)) s
        ≡ then_listen E (detect E d.now d.ip d.port node (detect_msg E node ip port)) s
  unfolding parsed typed dispatch detect_msg data_msg string_at find str_eq ◌>>=◌ if◌run◌else◌
  dispatched-detect node ip port d s =
      rw
        (
          E.find_field-obj,
          E.get_string-str,
          E.at-obj (codes "nodeID") _ (E.str node) refl,
          E.get_string-str,
        )
        refl

  module _ {P : Server J → Type 0} (d : Datagram) (k : IsDetect d)
      (kept : Keeps P (detect E d.now d.ip d.port k.node (detect_msg E k.node k.ip k.port))) where
    Keeps-body : Keeps P (body E d)
    unfolding body then_listen
    Keeps-body =
        let read : E.parse (recv_buffer d.bytes) ≡ some (detect_msg E k.node k.ip k.port) =
          parse-recv_buffer E d.bytes k.fits ∙ ap E.parse k.same ∙ E.parse-dump _ in
        let handled : Keeps P
            (then_listen E (detect E d.now d.ip d.port k.node (detect_msg E k.node k.ip k.port))) =
          Keeps-bind _ _ kept λ x. Keeps-pure true in
        let whole : Keeps P (parsed E d (E.parse (recv_buffer d.bytes))) =
          keeps λ s h. rw (read, dispatched-detect k.node k.ip k.port d s) (at_state handled s h) in
        Keeps-bind _ _ (Keeps-gets _) λ own. Keeps-if _ _ _ (Keeps-pure true) whole

    -- The handler keeps what the handling of the message keeps, and what does not turn on the pending
    -- receive.
    pub Keeps-handle_detect :
        ((s : Server J) (b : Bool) → P s → P (record s { receiving = b }))
        → (err : RecvError) → Keeps P (handle_receive E err d)
    unfolding handle_receive start_receive
    Keeps-handle_detect heard other_error = Keeps-modify _ (λ s h. heard s false h)
    Keeps-handle_detect heard _ = Keeps-bind _ _ (Keeps-modify _ (λ s h. heard s false h)) λ x.
        Keeps-bind _ _ Keeps-body
          λ again. Keeps-if _ _ _ (Keeps-modify _ (λ s h. heard s true h)) (Keeps-pure tt)
