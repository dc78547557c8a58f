-- ===== src/Effect/Iterate.antt =====
-- `for (it = m.begin(); it != m.end();)` over a map of the object itself, which the body may change: it
-- moves on by `it++` or by `m.erase(it++)`.
use nat.Prelude.{
  ℕ, zero, suc, ◌<◌, Str, Option, none, some, [], ◌∷◌, ◌≡◌, refl, ap, ◌∙◌, subst, length, inl, inr,
  arith,
}
use nat.StdMap.{StdMap, IsSorted}
use nat.StdMap.Cursor.{IsLeft, past, past-cons, beyond-erase}
use nat.Effect.{Outcome, done, fails, M, final, pure, raise, endless, resume, ◌>>=◌}
use nat.Effect.Keeps.{Keeps-both, Keeps, at_state}

module _ {S : Type 0} where
  resume_congr :
      {A B : Type 0} (o : Outcome S A) (k k' : A → M S B)
      → ((a : A) (t : S) → o ≡ done a t → k a t ≡ k' a t)
      → resume o k ≡ resume o k'
  resume_congr (done a t) k k' h = h a t refl
  resume_congr (fails f t) k k' h = refl

  -- Two runs that begin alike, and go on alike where the first part returns.
  pub >>=_congr :
      {A B : Type 0} (m m' : M S A) (k k' : A → M S B) (s : S)
      → m s ≡ m' s
      → ((a : A) (t : S) → m' s ≡ done a t → k a t ≡ k' a t)
      → (m >>= k) s ≡ (m' >>= k') s
  unfolding ◌>>=◌
  >>=_congr m m' k k' s e h = ap (λ o. resume o k) e ∙ resume_congr (m' s) k k' h

  resume_unit : (o : Outcome S (Unit {0})) → resume o (λ x. pure tt) ≡ o
  unfolding pure
  resume_unit (done a t) = refl
  resume_unit (fails f t) = refl

  pub >>=-pure_tt : (m : M S (Unit {0})) (s : S) → (m >>= λ x. pure tt) s ≡ m s
  unfolding ◌>>=◌
  >>=-pure_tt m s = resume_unit (m s)

module _ {S V A : Type 0} (over : S → StdMap V) (join : A → A → A) (unit : A) where
  -- The body for each of the entries that the map has at the start.
  unfoldable pub each : (Str → V → M S A) → StdMap V → M S A
  each body [] = pure unit
  each body ((k, v) ∷ entries) = do one ← body k v; more ← each body entries; pure (join one more)

  -- At most `n` tests of `it != m.end()`, each with the map as it is then; `pos` is the iterator.
  unfoldable pub iterate : (Str → V → M S A) → ℕ → Option Str → M S A
  iterate body zero pos s = raise endless s
  iterate body (suc n) pos s = elim (past pos (over s)) [
    | [] ↦ pure unit s
    | entry ∷ rest ↦
        (do one ← body entry.0 entry.1; more ← iterate body n (some entry.0); pure (join one more))
          s
  ]

  unfoldable pub loop : (Str → V → M S A) → M S A
  loop body s = iterate body (suc (length (over s))) none s

  -- As long as `Inv` holds the map is in order, the two bodies do the same, and they leave the map as
  -- it was or erase their own entry.
  pub record Walks (Inv : S → Type 0) (live body : Str → V → M S A) : Type 0 where
    pub sorted : (s : S) → Inv s → IsSorted (over s)
    pub same : (k : Str) (v : V) (s : S) → Inv s → live k v s ≡ body k v s
    pub kept : (k : Str) (v : V) → Keeps Inv (body k v)
    pub leaves :
        (k : Str) (v : V) (s : S) → Inv s → Keeps (λ t. IsLeft k (over s) (over t)) (body k v)

  -- What the body keeps besides.
  pub Walks-and :
      {Inv Q : S → Type 0} {live body : Str → V → M S A}
      → Walks Inv live body
      → ((k : Str) (v : V) → Keeps Q (body k v))
      → Walks (λ s. Inv s × Q s) live body
  Walks-and w q = record {
    sorted = λ s i. w.sorted s i.0;
    same = λ k v s i. w.same k v s i.0;
    kept = λ k v. Keeps-both (w.kept k v) (q k v);
    leaves = λ k v s i. w.leaves k v s i.0;
  }

  module _ {Inv : S → Type 0} {live body : Str → V → M S A} (w : Walks Inv live body) where
    pub moves_on :
        (k : Str) (v : V) (es : StdMap V) (pos : Option Str) (s : S) (a : A) (t : S)
        → Inv s
        → past pos (over s) ≡ (k, v) ∷ es
        → body k v s ≡ done a t
        → past (some k) (over t) ≡ es
    moves_on k v es pos s a t i e h =
        let next = past-cons pos k v (over s) es (w.sorted s i) e in
        elim (subst (λ r. IsLeft k (over s) (over r)) (ap final h)
          (at_state (w.leaves k v s i) s (inl refl))) [
            | inl q ↦ ap (past (some k)) q ∙ next
            | inr q ↦ ap (past (some k)) q ∙ beyond-erase k (over s) (w.sorted s i) ∙ next
          ]

    iterate-each :
        (es : StdMap V) (n : ℕ) (pos : Option Str) (s : S)
        → length es < n
        → Inv s
        → past pos (over s) ≡ es
        → iterate live n pos s ≡ each body es s
    unfolding iterate each
    iterate-each es zero pos s small i e = absurd (omega (arith, small))
    iterate-each [] (suc n) pos s small i e = rw (iterate, e) refl
    iterate-each ((k, v) ∷ es) (suc n) pos s small i e =
        rw (iterate, e)
          (>>=_congr (live k v) (body k v) _ _ s (w.same k v s i) (λ a t h.
            >>=_congr (iterate live n (some k)) (each body es) _ _ t
              (iterate-each es n (some k) t (omega (arith, small))
                (subst Inv (ap final h) (at_state (w.kept k v) s i))
                (moves_on k v es pos s a t i e h))
              (λ b u q. refl)))

    -- So the loop does the body for each entry of the map that it starts with, and ends.
    pub loop-each : (s : S) → Inv s → loop live s ≡ each body (over s) s
    unfolding loop
    loop-each s i = iterate-each (over s) _ none s (omega arith) i refl
