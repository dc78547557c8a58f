-- ===== src/Effect/Returns.antt =====
-- Code that returns, run from a given object, and leaves an object that has a property.
use nat.Prelude.{Bool, true, false, Option, some, ◌≡◌, refl}
use nat.Effect.{M, done, pure, gets, require, modify, ◌>>=◌, if◌run◌else◌}

module _ {S : Type 0} (P : S → Type 0) where
  abbrev pub Returns : {A : Type 0} → M S A → S → Type 0
  Returns {A} m s = (a : A) × (t : S) × (m s ≡ done a t) × P t

  pub Returns-pure : {A : Type 0} (a : A) (s : S) → P s → Returns (pure a) s
  unfolding pure
  Returns-pure a s p = (a, s, refl, p)

  pub Returns-modify : (f : S → S) (s : S) → P (f s) → Returns (modify f) s
  unfolding modify
  Returns-modify f s p = (tt, f s, refl, p)

  pub Returns-if :
      {A : Type 0} (b : Bool) (m n : M S A) (s : S)
      → (b ≡ true → Returns m s)
      → (b ≡ false → Returns n s)
      → Returns (if b run m else n) s
  unfolding if◌run◌else◌
  Returns-if true m n s p q = p refl
  Returns-if false m n s p q = q refl

  module _ {A B : Type 0} where
    pub Returns-bind :
        (m : M S A) (k : A → M S B) (s : S)
        → Returns m s
        → ((a : A) (t : S) → P t → Returns (k a) t)
        → Returns (m >>= k) s
    unfolding ◌>>=◌
    Returns-bind m k s (a, t, e, p) h = let (b, u, f, q) = h a t p in (b, u, rw e f, q)

    -- A library call that has a result.
    pub Returns-require :
        (o : Option A) (a : A) (k : A → M S B) (s : S)
        → o ≡ some a
        → Returns (k a) s
        → Returns (require o >>= k) s
    unfolding ◌>>=◌
    Returns-require o a k s e (b, u, f, q) = (b, u, rw e f, q)

    pub Returns-gets :
        (g : S → A) (k : A → M S B) (s : S) → Returns (k (g s)) s → Returns (gets g >>= k) s
    unfolding ◌>>=◌
    Returns-gets g k s h = h
