-- ===== src/Effect/Raises.antt =====
-- Code that is sure to throw, run from a given object.
use nat.Prelude.{
  Str, str_eq, str_eq_sound, some, [], ◌∷◌, ◌≡◌, refl, sym, ap, subst, arith, Bool-cases, inl, inr,
}
use nat.StdMap.{StdMap, find}
use nat.Effect.{Fault, exception, Outcome, done, fails, M, final, ◌>>=◌, resume}
use nat.Effect.Keeps.{Keeps, at_state}
use nat.Effect.Iterate.{each}
use nat.Effect.Throws.{Throws, at_fault}

module _ {S : Type 0} where
  abbrev pub Raises : {A : Type 0} → M S A → S → Type 0
  Raises m s = (u : S) × (m s ≡ fails exception u)

  module _ {A B : Type 0} (m : M S A) (k : A → M S B) (s : S) where
    resume-Raises :
        (o : Outcome S A)
        → ((f : Fault) (t : S) → o ≡ fails f t → f ≡ exception)
        → ((a : A) (t : S) → o ≡ done a t → Raises (k a) t)
        → (u : S) × (resume o k ≡ fails exception u)
    resume-Raises (done a t) p q = q a t refl
    resume-Raises (fails f t) p q = (t, rw (p f t refl) refl)

    -- The first part throws, or the second does after it.
    pub Raises-bind :
        Throws m → ((a : A) (t : S) → m s ≡ done a t → Raises (k a) t) → Raises (m >>= k) s
    unfolding ◌>>=◌
    Raises-bind p q = resume-Raises (m s) (at_fault p s) q

    pub Raises-first : Raises m s → Raises (m >>= k) s
    unfolding ◌>>=◌
    Raises-first (u, e) = (u, rw e refl)

    -- The first part keeps what makes the second throw.
    pub Raises-kept :
        (P : S → Type 0)
        → P s
        → Keeps P m
        → Throws m
        → ((a : A) (t : S) → P t → Raises (k a) t)
        → Raises (m >>= k) s
    Raises-kept P h keep p q =
        Raises-bind p (λ a t e. q a t (subst P (ap final e) (at_state keep s h)))

module _ {S V A : Type 0} (over : S → StdMap V) (join : A → A → A) (unit : A)
    (body : Str → V → M S A) where
  abbrev pub EachThrows : StdMap V → Type 0
  EachThrows [] = Unit
  EachThrows ((k, v) ∷ entries) = Throws (body k v) × EachThrows entries

  -- A loop throws that has an entry at which its body always throws, and at the others does not fail
  -- in another way.
  pub each-Raises :
      (k : Str) (v : V) (entries : StdMap V)
      → EachThrows entries
      → find k entries ≡ some v
      → ((s : S) → Raises (body k v) s)
      → (s : S) → Raises (each over join unit body entries) s
  unfolding each find
  each-Raises k v [] t h r s = absurd (ground arith)
  each-Raises k v ((j, w) ∷ entries) t h r s = elim (Bool-cases (str_eq j k)) [
    | inl here ↦ Raises-first (body j w) _ s (
        subst (λ i. Raises (body i w) s) (sym (str_eq_sound j k here))
          (subst (λ x. Raises (body k x) s) (ground (arith, h, here)) (r s)))
    | inr other ↦
        Raises-bind (body j w) _ s t.0
          λ one q e. Raises-first _ _ q (each-Raises k v entries t.1 (ground (arith, h, other)) r q)
  ]
