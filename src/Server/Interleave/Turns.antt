-- ===== src/Server/Interleave/Turns.antt =====
-- The timer's thread (`threadhandle`, server.cpp) alone: turns with no call of the handler between them.
use nat.Prelude.{ℕ, Str, Option, none, some, [], ◌∷◌, ◌≡◌, ap, sym, subst, ◌∙◌}
use nat.StdMap.{StdMap, find}
use nat.StdMap.Cursor.{beyond, past, past-cons, find-past}
use nat.StdMap.Iterator.{first_key}
use nat.External.{Env}
use nat.Effect.{M, done}
use nat.Effect.Keeps.{after}
use nat.Effect.Yields.{>>=-eq-done, pure-eq-done}
use nat.Effect.Iterate.{each, Walks, moves_on}
use nat.Server.State.{Server}
use nat.Server.Interleave.{Timer, turn}

module _ {J : Type 0} (E : Env J) (clock : ℕ) where
  -- Turns of the timer, one after the other, each of which returned.
  pub data Turns (t : Timer J) (s : Server J) : Timer J → Server J → Type 0 where
    stays : Turns t s t s
    goes :
        {t1 t2 : Timer J} {s1 s2 : Server J}
        → Turns t s t1 s1
        → turn E clock t1 t1.place s1 ≡ done t2 s2
        → Turns t s t2 s2

  pub Turns-trans :
      {t t1 : Timer J} {s s1 : Server J} {t2 : Timer J} {s2 : Server J}
      → Turns t s t1 s1
      → Turns t1 s1 t2 s2
      → Turns t s t2 s2
  Turns-trans a stays = a
  Turns-trans a (goes b e) = goes (Turns-trans a b) e

  pub one_turn :
      {t t1 : Timer J} {s s1 : Server J} → turn E clock t t.place s ≡ done t1 s1 → Turns t s t1 s1
  one_turn e = goes stays e

  module _ {V A : Type 0} (over : Server J → StdMap V) (join : A → A → A) (unit : A)
      (place : A → Option Str → Timer J) {Inv : Server J → Type 0}
      {live body : Str → V → M (Server J) A} (w : Walks over join unit Inv live body)
      (join_unit : (a : A) → join a unit ≡ a)
      (join_assoc : (a b c : A) → join (join a b) c ≡ join a (join b c))
      (turned : (a : A) (k : Str) (v : V) (es : StdMap V) (s : Server J) (one : A) (t : Server J)
        → Inv s
        → find k (over s) ≡ some v
        → beyond k (over s) ≡ es
        → beyond k (over t) ≡ es
        → body k v s ≡ done one t
        → Turns (place a (some k)) s (place (join a one) (first_key es)) t) where
    -- Turn by turn a loop does its body for each entry of the map that it starts with.
    pub Turns-each :
        (es : StdMap V) (pos : Option Str) (a : A) (s : Server J) (r : A) (t : Server J)
        → Inv s
        → past pos (over s) ≡ es
        → each over join unit body es s ≡ done r t
        → Turns (place a (first_key es)) s (place (join a r) none) t
    unfolding each first_key
    Turns-each [] pos a s r t i e h =
        let (u, q) = pure-eq-done unit s r t h in
        subst (λ x. Turns (place a none) s (place x none) t) (sym (join_unit a) ∙ ap (join a) u)
          (subst (λ x. Turns (place a none) s (place a none) x) q stays)
    Turns-each ((k, v) ∷ es) pos a s r t i e h =
        let (one, s1, h1, g1) = >>=-eq-done _ _ s r t h in
        let (more, s2, h2, g2) = >>=-eq-done _ _ s1 r t g1 in
        let (u, q) = pure-eq-done (join one more) s2 r t g2 in
        let next = past-cons pos k v (over s) es (w.sorted s i) e in
        let here = find-past pos k v (over s) es (w.sorted s i) e in
        let on = moves_on over join unit w k v es pos s one s1 i e h1 in
        let first = turned a k v es s one s1 i here next on h1 in
        let rest =
          Turns-each es (some k) (join a one) s1 more s2 (after (w.kept k v) s one s1 i h1) on h2 in
        subst (λ x. Turns (place a (some k)) s (place x none) t)
          (join_assoc a one more ∙ ap (join a) u)
          (subst (λ x. Turns (place a (some k)) s (place (join (join a one) more) none) x) q
            (Turns-trans first rest))
