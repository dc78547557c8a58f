-- ===== src/Effect/Keeps.antt =====
-- Invariants of effectful code, a rule for each way to build it.
use nat.Prelude.{Bool, true, false, Option, none, some, ◌≡◌, ap, subst}
use nat.Effect.{
  Fault, Outcome, done, fails, M, final, pure, raise, gets, require, defined, modify, ◌>>=◌, resume,
  if◌run◌else◌,
}

-- Whether it returns or fails, `m` leaves an object that has the property.
pub data Keeps {S A : Type 0} (P : S → Type 0) (m : M S A) : Type 0 where
  keeps : ((s : S) → P s → P (final (m s))) → Keeps P m

pub at_state :
    {S A : Type 0} {P : S → Type 0} {m : M S A} → Keeps P m → (s : S) → P s → P (final (m s))
at_state (keeps h) = h

pub Keeps-both :
    {S A : Type 0} {P Q : S → Type 0} {m : M S A} → Keeps P m → Keeps Q m → Keeps (λ s. P s × Q s) m
Keeps-both p q = keeps (λ s h. (at_state p s h.0, at_state q s h.1))

-- What holds before a part holds after it, where it returns.
pub after :
    {S A : Type 0} {P : S → Type 0} {m : M S A}
    → Keeps P m
    → (s : S) (a : A) (t : S) → P s
    → m s ≡ done a t
    → P t
after {P = P} k s a t h e = subst P (ap final e) (at_state k s h)

module _ {S : Type 0} {P : S → Type 0} where
  pub Keeps-pure : {A : Type 0} (a : A) → Keeps P (pure a)
  unfolding pure
  Keeps-pure a = keeps (λ s h. h)

  pub Keeps-raise : {A : Type 0} (f : Fault) → Keeps P (raise {A = A} f)
  unfolding raise
  Keeps-raise f = keeps (λ s h. h)

  pub Keeps-gets : {A : Type 0} (f : S → A) → Keeps P (gets f)
  unfolding gets
  Keeps-gets f = keeps (λ s h. h)

  pub Keeps-require : {A : Type 0} (o : Option A) → Keeps P (require o)
  unfolding require
  Keeps-require none = keeps (λ s h. h)
  Keeps-require (some a) = keeps (λ s h. h)

  pub Keeps-defined : {A : Type 0} (o : Option A) → Keeps P (defined o)
  unfolding defined
  Keeps-defined none = keeps (λ s h. h)
  Keeps-defined (some a) = keeps (λ s h. h)

  pub Keeps-modify : (f : S → S) → ((s : S) → P s → P (f s)) → Keeps P (modify f)
  unfolding modify
  Keeps-modify f k = keeps k

  pub Keeps-if :
      {A : Type 0} (b : Bool) (m n : M S A) → Keeps P m → Keeps P n → Keeps P (if b run m else n)
  unfolding if◌run◌else◌
  Keeps-if true m n p q = p
  Keeps-if false m n p q = q

  pub Keeps-resume :
      {A B : Type 0} (o : Outcome S A) (k : A → M S B)
      → P (final o)
      → ((a : A) → Keeps P (k a))
      → P (final (resume o k))
  Keeps-resume (done a s) k h p = at_state (p a) s h
  Keeps-resume (fails f s) k h p = h

  pub Keeps-bind :
      {A B : Type 0} (m : M S A) (k : A → M S B)
      → Keeps P m
      → ((a : A) → Keeps P (k a))
      → Keeps P (m >>= k)
  unfolding ◌>>=◌
  Keeps-bind m k p q = keeps (λ s h. Keeps-resume (m s) k (at_state p s h) q)

pub ruleset keeps_rules =
    (Keeps-pure, Keeps-raise, Keeps-gets, Keeps-require, Keeps-defined, Keeps-if, Keeps-bind)
