-- ===== src/Server/BindAborts.antt =====
-- What the message of the `bind` subcommand (main.cpp) does to the node that receives it.
use nat.Prelude.{ℕ, ◌≤◌, Str, codes, str_eq, false, [], ◌∷◌, ◌≡◌, ◌≢◌, refl, ◌∙◌, arith, length}
use nat.External.{Env}
use nat.StdMap.{find}
use nat.Effect.{done, fails, exception, ◌>>=◌}
use nat.Effect.Yields.{>>=-eq-done, require-eq-done, modify-eq-done}
use nat.Client.{Packet, send_to}
use nat.Describe.{string_at}
use nat.Main.{bind}
use nat.Server.State.{Server}
use nat.Server.Messages.{bind_msg}
use nat.Server.Buffer.{handle_receive-parsed}
use nat.Server.Receive.{Datagram, no_error, buffer_size, typed, parsed, handle_receive}

module _ {J : Type 0} (E : Env J) where
  body-send_to :
      (ip : Str) (port : ℕ) (msg : Str) (p : Packet)
      → (send_to E ip port msg []).1 ≡ p ∷ []
      → p.body ≡ msg
  unfolding send_to
  body-send_to ip port msg p e = ground arith

  body-bind :
      (server rport lport : Str) (p : Packet)
      → bind E server rport lport [] ≡ done tt (p ∷ [])
      → p.body ≡ E.dump (bind_msg E lport)
  unfolding bind
  body-bind server rport lport p e =
      let (a, s1, e1, h1) = >>=-eq-done _ _ [] tt _ e in
      let (b, s2, e2, h2) = >>=-eq-done _ _ s1 tt _ h1 in
      let empty = (require-eq-done _ [] a s1 e1).1 ∙ (require-eq-done _ s1 b s2 e2).1 in
      body-send_to server a _ p (rw (← empty) at (modify-eq-done _ s2 _ h2))

  -- The handler reads `nodeID`, which the message does not have, as a string.
  typed-bind :
      (d : Datagram) (lport : Str) (s : Server J)
      → typed E d (bind_msg E lport) (E.find_field (codes "msgtype") (bind_msg E lport)) s
        ≡ fails exception s
  unfolding typed bind_msg string_at ◌>>=◌ find str_eq
  typed-bind d lport s =
      rw (
        E.find_field-obj,
        E.get_string-str,
        E.at-missing (codes "nodeID") _ refl,
        E.get_string-null,
      )

  -- A node that gets what `bind` has sent, from another address than its own, throws while it handles
  -- the message, and so ends.
  pub handle_receive-bind :
      (server rport lport : Str) (p : Packet) (d : Datagram) (s : Server J)
      → bind E server rport lport [] ≡ done tt (p ∷ [])
      → length p.body ≤ buffer_size
      → d.bytes ≡ p.body
      → d.ip ≢ s.local_ip
      → handle_receive E no_error d s ≡ fails exception (record s { receiving = false })
  unfolding parsed ◌>>=◌
  handle_receive-bind server rport lport p d s e fits same away =
      handle_receive-parsed E d (bind_msg E lport) s (same ∙ body-bind server rport lport p e)
        (rw same fits) away
      ∙ rw (typed-bind d lport (record s { receiving = false })) refl
