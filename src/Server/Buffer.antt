-- ===== src/Server/Buffer.antt =====
-- What the handler (server.cpp) reads of a datagram that holds a message whole.
use nat.Prelude.{
  false, ◌-◌, ◌≤◌, Str, str_eq, str_eq_sound, ◌≡◌, ◌≢◌, refl, ap, ◌∙◌, ◌++◌, length, take-all,
  replicate, some, Bool-cases, inl, inr,
}
use nat.External.{Env}
use nat.Effect.{pure, ◌>>=◌, if◌run◌else◌}
use nat.Server.State.{Server, start_receive}
use nat.Server.Receive.{Datagram, no_error, buffer_size, recv_buffer, parsed, body, handle_receive}

module _ {J : Type 0} (E : Env J) where
  pub parse-recv_buffer :
      (bytes : Str) → length bytes ≤ buffer_size → E.parse (recv_buffer bytes) ≡ E.parse bytes
  unfolding recv_buffer
  parse-recv_buffer bytes h =
      ap (λ t. E.parse (t ++ replicate (buffer_size - length bytes) 0))
        (take-all buffer_size bytes h)
      ∙ E.parse-padded bytes (buffer_size - length bytes)

  -- From another address than the node's, a datagram that holds a message whole, and fits the buffer,
  -- is read back as that message: the handler goes on with the message itself.
  pub handle_receive-parsed :
      (d : Datagram) (msg : J) (s : Server J)
      → d.bytes ≡ E.dump msg
      → length d.bytes ≤ buffer_size
      → d.ip ≢ s.local_ip
      → handle_receive E no_error d s
        ≡ (parsed E d (some msg) >>= λ again. if again run start_receive else pure tt)
            (record s { receiving = false })
  unfolding handle_receive body ◌>>=◌
  handle_receive-parsed d msg s same fits away =
      let read = parse-recv_buffer d.bytes fits ∙ ap E.parse same ∙ E.parse-dump msg in
      elim (Bool-cases (str_eq d.ip s.local_ip)) [
        | inl here ↦ absurd (away (str_eq_sound d.ip s.local_ip here))
        | inr there ↦ rw (there, read) refl
      ]
