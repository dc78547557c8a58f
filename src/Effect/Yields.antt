-- ===== src/Effect/Yields.antt =====
-- What a run that returns tells: its parts returned, and what value it can have.
use nat.Prelude.{Bool, true, false, Option, none, some, ◌≡◌, refl, ap, arith}
use nat.Effect.{
  Outcome, done, fails, M, pure, raise, gets, require, modify, ◌>>=◌, resume, if◌run◌else◌,
}

module _ {S : Type 0} where
  pub resume-eq-done :
      {A B : Type 0} (o : Outcome S A) (k : A → M S B) (b : B) (u : S)
      → resume o k ≡ done b u
      → (a : A) × (t : S) × (o ≡ done a t) × (k a t ≡ done b u)
  resume-eq-done (done a t) k b u h = (a, t, refl, h)
  resume-eq-done (fails f t) k b u h = cc

  -- A bind returns by way of its first part.
  pub >>=-eq-done :
      {A B : Type 0} (m : M S A) (k : A → M S B) (s : S) (b : B) (u : S)
      → (m >>= k) s ≡ done b u
      → (a : A) × (t : S) × (m s ≡ done a t) × (k a t ≡ done b u)
  unfolding ◌>>=◌
  >>=-eq-done m k s b u h = resume-eq-done (m s) k b u h

  pub require-eq-done :
      {A : Type 0} (o : Option A) (s : S) (a : A) (t : S)
      → require o s ≡ done a t
      → (o ≡ some a) × (s ≡ t)
  unfolding require pure raise
  require-eq-done none s a t h = cc
  require-eq-done (some b) s a t h = (ground arith, ground arith)

  pub pure-eq-done :
      {A : Type 0} (a : A) (s : S) (b : A) (t : S) → pure a s ≡ done b t → (a ≡ b) × (s ≡ t)
  unfolding pure
  pure-eq-done a s b t h = (ground arith, ground arith)

  pub gets-eq-done :
      {A : Type 0} (g : S → A) (s : S) (a : A) (t : S) → gets g s ≡ done a t → (g s ≡ a) × (s ≡ t)
  unfolding gets
  gets-eq-done g s a t h = (ground arith, ground arith)

  pub modify-eq-done : (g : S → S) (s t : S) → modify g s ≡ done tt t → g s ≡ t
  unfolding modify
  modify-eq-done g s t h = ground arith

-- A bind goes on from where its first part returned.
pub bind_done :
    {S A B : Type 0} (m : M S A) (k : A → M S B) (s : S) (a : A) (t : S)
    → m s ≡ done a t
    → (m >>= k) s ≡ k a t
unfolding ◌>>=◌
bind_done m k s a t h = ap (λ o. resume o k) h

-- Where it returns, `m` returns `a`.
pub data Yields {S A : Type 0} (a : A) (m : M S A) : Type 0 where
  yields : ((s : S) (b : A) (u : S) → m s ≡ done b u → b ≡ a) → Yields a m

pub at_return :
    {S A : Type 0} {a : A} {m : M S A}
    → Yields a m
    → (s : S) (b : A) (u : S) → m s ≡ done b u
    → b ≡ a
at_return (yields h) = h

pub returned :
    {S A : Type 0} {a : A} (m : M S A) (s : S) (b : A) (u : S) → m s ≡ done b u → Yields a m → b ≡ a
returned m s b u h y = at_return y s b u h

module _ {S A : Type 0} {a : A} where
  pub Yields-pure : Yields {S = S} a (pure a)
  unfolding pure
  Yields-pure = yields (λ s b u e. ground arith)

  pub Yields-if : (c : Bool) (m n : M S A) → Yields a m → Yields a n → Yields a (if c run m else n)
  unfolding if◌run◌else◌
  Yields-if true m n p q = p
  Yields-if false m n p q = q

  pub Yields-unless :
      (c : Bool) (m n : M S A) → c ≡ false → Yields a n → Yields a (if c run m else n)
  Yields-unless c m n e q = rw e (unfold if◌run◌else◌ in q)

  pub Yields-bind :
      {B : Type 0} (m : M S B) (k : B → M S A) → ((b : B) → Yields a (k b)) → Yields a (m >>= k)
  Yields-bind m k q =
      yields λ s b u e. let (c, t, e1, e2) = >>=-eq-done m k s b u e in at_return (q c) t b u e2

pub ruleset yields_rules = (Yields-pure, Yields-if, Yields-bind)
