-- ===== src/Server/Update/Keeps.antt =====
-- The loop of "update" (server.cpp) keeps what its elementary changes keep.
use nat.Prelude.{ℕ, Str, List, [], ◌∷◌}
use nat.StdMap.{StdMap}
use nat.External.{Env}
use nat.Effect.Keeps.{Keeps, Keeps-require, Keeps-modify, Keeps-bind, keeps_rules}
use nat.Server.State.{Server, add_node, send}
use nat.Server.Update.{
  Remote, last_public, connect_public, connect_hidden, connect, update_item, update_items,
}

module _ {J : Type 0} (E : Env J) where
  module _ {P : Server J → Type 0} (add : (id info : Str) → Keeps P (add_node id info))
      (sends : (to : Str) (at : ℕ) (msg : J) → Keeps P (send E to at msg))
      (publics : (s : Server J) (ns : List Str) → P s → P (record s { public_nodes = ns })) where
    Keeps-last_public : (r : Remote) (hosts : StdMap Str) → Keeps P (last_public E r hosts)
    unfolding last_public
    Keeps-last_public r [] = search keeps_rules
    Keeps-last_public r ((k, v) ∷ hosts) = Keeps-bind _ _ (Keeps-require _) λ body.
        Keeps-bind _ _ (Keeps-require _)
          λ open_node. Keeps-bind _ _ (search keeps_rules depth 12) λ r'. Keeps-last_public r' hosts

    Keeps-connect_public : (to : Str) (at : ℕ) → Keeps P (connect_public E to at)
    unfolding connect_public
    Keeps-connect_public to at = search (keeps_rules, Keeps-modify, sends, publics) depth 12

    Keeps-connect_hidden :
        (r : Remote) (to : Str) (at : ℕ) (item : J) → Keeps P (connect_hidden E r to at item)
    unfolding connect_hidden
    Keeps-connect_hidden r to at item = search (keeps_rules, sends, Keeps-last_public) depth 14

    Keeps-connect : (r : Remote) (to : Str) (at : ℕ) (item : J) → Keeps P (connect E r to at item)
    unfolding connect
    Keeps-connect r to at item =
        search (keeps_rules, Keeps-connect_public, Keeps-connect_hidden) depth 12

    Keeps-update_item :
        (sender : Str) (r : Remote) (k : Str) (v : J) → Keeps P (update_item E sender r k v)
    unfolding update_item
    Keeps-update_item sender r k v = search (keeps_rules, add, Keeps-connect) depth 14

    pub Keeps-update_items :
        (sender : Str) (r : Remote) (entries : List (Str × J))
        → Keeps P (update_items E sender r entries)
    unfolding update_items
    Keeps-update_items sender r [] = search keeps_rules
    Keeps-update_items sender r ((k, v) ∷ entries) =
        let ih : (r' : Remote) → Keeps P (update_items E sender r' entries) =
          λ r'. Keeps-update_items sender r' entries in
        search (keeps_rules, ih, Keeps-update_item) depth 12
