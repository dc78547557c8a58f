-- ===== src/Prelude/Lists.antt =====
-- Lists measured and indexed by native numbers, and a predicate on all entries.
use Prim.Native.Nat.{ℕ, zero, suc, ◌≤◌}
use mathlib.Core.Path.{◌≡◌, refl, ap}
use mathlib.Core.List.{List, [], ◌∷◌, ◌++◌}
use mathlib.Core.Option.{Option, none, some}
use native.Mathlib.Omega.{arith}

module _ {ℓ} {A : Type ℓ} where
  abbrev pub length : List A → ℕ
  length [] = 0
  length (x ∷ xs) = suc (length xs)

  abbrev pub get_elem? : List A → ℕ → Option A
  get_elem? [] i = none
  get_elem? (x ∷ xs) zero = some x
  get_elem? (x ∷ xs) (suc i) = get_elem? xs i

  abbrev pub take : ℕ → List A → List A
  take zero xs = []
  take (suc n) [] = []
  take (suc n) (x ∷ xs) = x ∷ take n xs

  abbrev pub replicate : ℕ → A → List A
  replicate zero a = []
  replicate (suc n) a = a ∷ replicate n a

  -- The list over the start of another, as far as that reaches: a write into a buffer.
  abbrev pub overwrite : List A → List A → List A
  overwrite [] ys = ys
  overwrite (x ∷ xs) [] = []
  overwrite (x ∷ xs) (y ∷ ys) = x ∷ overwrite xs ys

  pub length-overwrite : (xs ys : List A) → length (overwrite xs ys) ≡ length ys
  length-overwrite [] ys = refl
  length-overwrite (x ∷ xs) [] = refl
  length-overwrite (x ∷ xs) (y ∷ ys) = ap suc (length-overwrite xs ys)

  pub take-overwrite :
      (xs ys : List A) → length xs ≤ length ys → take (length xs) (overwrite xs ys) ≡ xs
  take-overwrite [] ys h = refl
  take-overwrite (x ∷ xs) [] h = absurd (omega arith)
  take-overwrite (x ∷ xs) (y ∷ ys) h = ap (◌∷◌ x) (take-overwrite xs ys (omega arith))

  pub length-take : (n : ℕ) (xs : List A) → length (take n xs) ≤ n
  length-take zero xs = omega arith
  length-take (suc n) [] = omega arith
  length-take (suc n) (x ∷ xs) = omega (arith, length-take n xs)

  pub take-all : (n : ℕ) (xs : List A) → length xs ≤ n → take n xs ≡ xs
  take-all zero [] h = refl
  take-all zero (x ∷ xs) h = absurd (omega arith)
  take-all (suc n) [] h = refl
  take-all (suc n) (x ∷ xs) h = ap (◌∷◌ x) (take-all n xs (omega arith))

abbrev pub All {ℓ κ} : {A : Type ℓ} → (A → Type κ) → List A → Type κ
All P [] = Unit
All P (x ∷ xs) = P x × All P xs

module _ {ℓ κ} {A : Type ℓ} (P : A → Type κ) where
  pub All-append : (xs ys : List A) → All P xs → All P ys → All P (xs ++ ys)
  All-append [] ys p q = q
  All-append (x ∷ xs) ys p q = (p.0, All-append xs ys p.1 q)

  pub All-front : (xs ys : List A) → All P (xs ++ ys) → All P xs
  All-front [] ys p = tt
  All-front (x ∷ xs) ys p = (p.0, All-front xs ys p.1)

  pub All-back : (xs ys : List A) → All P (xs ++ ys) → All P ys
  All-back [] ys p = p
  All-back (x ∷ xs) ys p = All-back xs ys p.1

  -- One entry in place of another.
  pub All-replace :
      (xs ys : List A) (x y : A) → All P (xs ++ x ∷ ys) → (P x → P y) → All P (xs ++ y ∷ ys)
  All-replace xs ys x y p f =
      let back = All-back xs (x ∷ ys) p in
      All-append xs (y ∷ ys) (All-front xs (x ∷ ys) p) (f back.0, back.1)

  pub All-remove : (xs ys : List A) (x : A) → All P (xs ++ x ∷ ys) → All P (xs ++ ys)
  All-remove xs ys x p = All-append xs ys (All-front xs (x ∷ ys) p) (All-back xs (x ∷ ys) p).1

  pub All-at : (xs ys : List A) (x : A) → All P (xs ++ x ∷ ys) → P x
  All-at xs ys x p = (All-back xs (x ∷ ys) p).0

pub All-map {ℓ κ κ'} :
    {A : Type ℓ} (P : A → Type κ) (Q : A → Type κ')
    → ((a : A) → P a → Q a)
    → (xs : List A) → All P xs
    → All Q xs
All-map P Q f [] p = tt
All-map P Q f (x ∷ xs) p = (f x p.0, All-map P Q f xs p.1)
