-- ===== src/Effect/Throws.antt =====
-- Code that fails in no other way than by an exception, a rule for each way to build it.
use nat.Prelude.{Bool, true, false, Option, none, some, ◌≡◌, refl, arith}
use nat.Effect.{
  Fault, exception, Outcome, done, fails, M, pure, gets, require, modify, ◌>>=◌, resume,
  if◌run◌else◌,
}

pub data Throws {S A : Type 0} (m : M S A) : Type 0 where
  throws : ((s : S) (f : Fault) (t : S) → m s ≡ fails f t → f ≡ exception) → Throws m

pub at_fault :
    {S A : Type 0} {m : M S A}
    → Throws m
    → (s : S) (f : Fault) (t : S) → m s ≡ fails f t
    → f ≡ exception
at_fault (throws h) = h

module _ {S : Type 0} where
  pub Throws-pure : {A : Type 0} (a : A) → Throws {S = S} (pure a)
  unfolding pure
  Throws-pure a = throws (λ s f t e. cc)

  pub Throws-gets : {A : Type 0} (g : S → A) → Throws (gets g)
  unfolding gets
  Throws-gets g = throws (λ s f t e. cc)

  pub Throws-modify : (g : S → S) → Throws (modify g)
  unfolding modify
  Throws-modify g = throws (λ s f t e. cc)

  pub Throws-require : {A : Type 0} (o : Option A) → Throws {S = S} (require o)
  unfolding require
  Throws-require none = throws (λ s f t e. ground arith)
  Throws-require (some a) = throws (λ s f t e. cc)

  pub Throws-if :
      {A : Type 0} (b : Bool) (m n : M S A) → Throws m → Throws n → Throws (if b run m else n)
  unfolding if◌run◌else◌
  Throws-if true m n p q = p
  Throws-if false m n p q = q

  Throws-resume :
      {A B : Type 0} (o : Outcome S A) (k : A → M S B)
      → ((f : Fault) (t : S) → o ≡ fails f t → f ≡ exception)
      → ((a : A) → Throws (k a))
      → (f : Fault) (t : S) → resume o k ≡ fails f t
      → f ≡ exception
  Throws-resume (done a s) k h p f t e = at_fault (p a) s f t e
  Throws-resume (fails g s) k h p f t e = ground (arith, h g s refl)

  pub Throws-bind :
      {A B : Type 0} (m : M S A) (k : A → M S B)
      → Throws m
      → ((a : A) → Throws (k a))
      → Throws (m >>= k)
  unfolding ◌>>=◌
  Throws-bind m k p q = throws (λ s f t e. Throws-resume (m s) k (at_fault p s) q f t e)

pub ruleset throws_rules =
    (Throws-pure, Throws-gets, Throws-modify, Throws-require, Throws-if, Throws-bind)
