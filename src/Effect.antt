-- ===== src/Effect.antt =====
-- Code that changes an object and may throw. What was changed before a throw stays changed.
pub mod Keeps
pub mod Throws
pub mod Yields
pub mod Iterate
pub mod Raises
pub mod Returns
use nat.Prelude.{Option, none, some, Bool, true, false}

-- How a run of the node's code ends other than by returning: an exception, undefined behaviour
-- of C++, or a loop that makes no progress.
pub data Fault : Type 0 where
  exception undefined endless : Fault

pub data Outcome (S A : Type 0) : Type 0 where
  done : A → S → Outcome S A
  fails : Fault → S → Outcome S A

abbrev pub M : Type 0 → Type 0 → Type 0
M S A = S → Outcome S A

-- The object as the run leaves it.
abbrev pub final : {S A : Type 0} → Outcome S A → S
final (done a s) = s
final (fails f s) = s

module _ {S : Type 0} where
  module _ {A : Type 0} where
    pub pure : A → M S A
    pure a s = done a s

    pub raise : Fault → M S A
    raise f s = fails f s

    pub gets : (S → A) → M S A
    gets f s = done (f s) s

    -- A library call that throws where it has no result.
    pub require : Option A → M S A
    unfolding pure raise
    require none = raise exception
    require (some a) = pure a

    -- A read that C++ leaves undefined where it has no result.
    pub defined : Option A → M S A
    unfolding pure raise
    defined none = raise undefined
    defined (some a) = pure a

  -- A branch of a program; shut, so that a rule can match it.
  infix 1 if◌run◌else◌
  unfoldable pub if◌run◌else◌ : {A : Type 0} → Bool → M S A → M S A → M S A
  if true run m else n = m
  if false run m else n = n

  unfoldable pub modify : (S → S) → M S (Unit {0})
  modify f s = done tt (f s)

  module _ {A B : Type 0} where
    abbrev pub resume : Outcome S A → (A → M S B) → Outcome S B
    resume (done a s) k = k a s
    resume (fails f s) k = fails f s

    infixl 10 ◌>>=◌ ◌>>◌
    unfoldable pub ◌>>=◌ : M S A → (A → M S B) → M S B
    unfolding pure raise gets require defined modify if◌run◌else◌
    ◌>>=◌ m k s = resume (m s) k

    abbrev pub ◌>>◌ : M S A → M S B → M S B
    m >> k = m >>= λ _. k

  abbrev caught : {A : Type 0} → Outcome S A → Outcome S (Option A)
  caught (done a t) = done (some a) t
  caught (fails exception t) = done none t
  caught (fails f t) = fails f t

  -- `try { … } catch (const std::exception &)`: `none` where an exception was caught.
  unfoldable pub attempt : {A : Type 0} → M S A → M S (Option A)
  attempt m s = caught (m s)
