-- ===== src/Main/Exits.antt =====
-- How `main` (main.cpp) ends for one subcommand on the command line.
use nat.Prelude.{
  ℕ, Str, codes, str_eq, Option, Option-cases, inl, inr, none, some, Bool, List, [], ◌∷◌, ◌++◌,
  append-nil, ◌≡◌, refl, sym, ap, Bool-cases, if◌then◌else◌,
}
use nat.StdMap.{StdMap, find}
use nat.External.{Env}
use nat.Effect.{Outcome, done, fails, exception, undefined, attempt, ◌>>=◌, if◌run◌else◌}
use nat.Client.{Packet, send_to}
use nat.Server.State.{Server}
use nat.Server.Start.{start}
use nat.Server.Messages.{bind_msg, detect_msg}
use nat.Main.{bind, servermode}
use nat.Main.Options.{calls, Cli, app, value_of}
use nat.Main.Run.{Process, Ending, exits, serving, call_bind, call_servermode, call_all, main}

module _ {J : Type 0} (E : Env J) where
  -- The datagram that goes out, if the address is a numeric one.
  abbrev pub handed : Str → ℕ → Str → List Packet
  handed ip port body =
      if E.is_address ip then record { ip = ip; port = port; body = body } ∷ [] else []

  send_to-handed :
      (ip : Str) (port : ℕ) (body : Str) (out : List Packet)
      → (send_to E ip port body out).1 ≡ out ++ handed ip port body
  unfolding send_to
  send_to-handed ip port body out = elim (Bool-cases (E.is_address ip)) [
    | inl valid ↦ rw valid refl
    | inr invalid ↦ rw invalid (sym (append-nil out))
  ]

  -- What `servermode` makes of its options, once the ports are numbers and the flag is given.
  unfoldable pub started : Str → ℕ → ℕ → Str → Bool → Str → Server J
  started rip rport port port_text flag ip =
      let node = start E rip rport port flag ip in
      record node { sent = handed rip rport (E.dump (detect_msg E node.node_id ip port_text)) }

  module _ (cli : Cli) (argv : List Str) (values : StdMap Str) (flags : StdMap Bool)
      (p : Process J) where
    -- The command line has one subcommand, of the name.
    abbrev pub Only : Str → Type 0
    Only name = cli app argv ≡ calls (record { name = name; values = values; flags = flags } ∷ [])

    abbrev pub given : Str → Str
    given names = value_of names (record { name = []; values = values; flags = flags })

    -- How `servermode` ends, by what its ports and its flag are.
    abbrev pub servermode_end : Option ℕ → Option ℕ → Option Bool → Outcome (Process J) Ending
    servermode_end none port flag = done (exits 0) p
    servermode_end (some rport) none flag = done (exits 0) p
    servermode_end (some rport) (some port) none = fails undefined p
    servermode_end (some rport) (some port) (some flag) = done serving (record p {
      node = some (
          started (given (codes "-s,--remoteserverip")) rport port (given (codes "-p,--localport"))
            flag (given (codes "-i,--ip")));
    })

    -- How `bind` ends.
    abbrev pub bind_end : Option ℕ → Option ℕ → Outcome (Process J) Ending
    bind_end none port = fails exception p
    bind_end (some rport) none = fails exception p
    bind_end (some rport) (some port) = done (exits 0) (record p {
      sent =
          p.sent
          ++ handed (given (codes "-s,--server")) rport
              (E.dump (bind_msg E (given (codes "-p,--localPort"))));
    })

    -- A command line with `servermode` alone: a port that is no number makes it fail, and the
    -- program then exits with the code for success, having sent nothing and run no node; without
    -- the flag `-m` the value of `mainNode` is read before it has one; else a node is started, one
    -- detect message goes out from it to the remote server if that is a numeric address, and none
    -- if not, and the program serves in both cases.
    pub main-servermode :
        Only (codes "servermode")
        → main E cli argv p
          ≡ servermode_end
              (E.lexical_cast (given (codes "-P,--remoteport")))
              (E.lexical_cast (given (codes "-p,--localport")))
              (find (codes "-m,--mainnode") flags)
    unfolding main call_all call_servermode servermode started start value_of attempt str_eq ◌>>=◌
        if◌run◌else◌
    main-servermode only =
        rw (only, call_all)
          (elim (Option-cases (E.lexical_cast (given (codes "-P,--remoteport")))) [
            | inl e ↦ rw e refl
            | inr (rport, e) ↦
                elim (Option-cases (E.lexical_cast (given (codes "-p,--localport")))) [
                  | inl f ↦ rw (e, f) refl
                  | inr (port, f) ↦ elim (Option-cases (find (codes "-m,--mainnode") flags)) [
                    | inl g ↦ rw (e, f, g) refl
                    | inr (flag, g) ↦
                        rw (e, f, g)
                          (let ip = given (codes "-i,--ip") in
                            let rip = given (codes "-s,--remoteserverip") in
                            let node = start E rip rport port flag ip in
                            ap {B = Outcome (Process J) Ending}
                              (λ out.
                                done serving
                                  (record p { node = some (record node { sent = out }) }))
                              (send_to-handed rip rport
                                (E.dump
                                  (detect_msg E node.node_id ip (given (codes "-p,--localport"))))
                                []))
                  ]
                ]
          ])

    -- A command line with `bind` alone: a port that is no number throws through `main`; else the
    -- program sends one message without a node ID to the remote server if that is a numeric
    -- address, and nothing if not, and exits with the code for success in both cases.
    pub main-bind :
        Only (codes "bind")
        → main E cli argv p
          ≡ bind_end
              (E.lexical_cast (given (codes "-P,--remotePort")))
              (E.lexical_cast (given (codes "-p,--localPort")))
    unfolding main call_all call_bind bind value_of str_eq ◌>>=◌ if◌run◌else◌
    main-bind only =
        rw (only, call_all)
          (elim (Option-cases (E.lexical_cast (given (codes "-P,--remotePort")))) [
            | inl e ↦ rw e refl
            | inr (rport, e) ↦
                elim (Option-cases (E.lexical_cast (given (codes "-p,--localPort")))) [
                  | inl f ↦ rw (e, f) refl
                  | inr (port, f) ↦
                      rw (e, f)
                        (ap {B = Outcome (Process J) Ending}
                          (λ out. done (exits 0) (record p { sent = out }))
                          (send_to-handed (given (codes "-s,--server")) rport
                            (E.dump (bind_msg E (given (codes "-p,--localPort")))) p.sent))
                ]
          ])
