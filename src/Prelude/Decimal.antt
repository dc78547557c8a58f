-- ===== src/Prelude/Decimal.antt =====
-- `std::to_string` of a number that is not negative, and `std::stoi`.
use Prim.Native.Nat.{ℕ, zero, suc, ◌+◌, ◌*◌, ◌-◌, ◌/◌, ◌%◌, ◌≤◌, ◌<◌, ◌^◌}
use mathlib.Core.Path.{◌≡◌, refl, ap, ◌∙◌}
use mathlib.Core.Bool.{Bool, true, false, ◌&&◌, ◌||◌}
use mathlib.Core.List.{[], ◌∷◌}
use mathlib.Core.Option.{Option, none, some}
use mathlib.Core.Logic.{inl, inr}
use native.Mathlib.Omega.{arith}
use nat.Prelude.Tests.{◌==◌, ltb, ltb→lt, leb, if◌then◌else◌, Bool-cases}
use nat.Prelude.Text.{Str}

-- The digits of `n` before those of `acc`, the last first.
digits_onto : ℕ → ℕ → Str → Str
digits_onto zero n acc = acc
digits_onto (suc f) n acc =
    let more = digits_onto f (n / 10) ((n % 10 + 48) ∷ acc) in
    if ltb n 10 then (n + 48) ∷ acc else more

unfoldable pub to_string : ℕ → Str
unfolding digits_onto
to_string n = digits_onto (suc n) n []

abbrev pub is_digit : ℕ → Bool
is_digit c = leb 48 c && leb c 57

-- The value of the digits that a text begins with, after `n`.
unfoldable pub digits_value : ℕ → Str → ℕ
digits_value n [] = n
digits_value n (c ∷ cs) =
    let rest = digits_value (n * 10 + (c - 48)) cs in if is_digit c then rest else n

abbrev pub int_max : ℕ
int_max = 2 ^ 31 - 1

-- An `int`: whether it is negative, and its magnitude.
abbrev pub SignedInt : Type 0
SignedInt = Bool × ℕ

magnitude : Bool → Str → Option SignedInt
magnitude negative [] = none
magnitude negative (c ∷ cs) =
    let n = digits_value 0 (c ∷ cs) in
    if is_digit c
    then (if leb n int_max || (negative && n == 2 ^ 31) then some (negative, n) else none)
    else none

signed : Str → Option SignedInt
unfolding magnitude
signed [] = none
signed (c ∷ cs) =
    if c == 45
    then magnitude true cs
    else if c == 43
    then magnitude false cs
    else magnitude false (c ∷ cs)

is_space : ℕ → Bool
is_space c = c == 32 || (leb 9 c && leb c 13)

-- `none` is the exception: no digit, or out of the range of `int`.
unfoldable pub stoi : Str → Option SignedInt
unfolding signed is_space
stoi [] = none
stoi (c ∷ cs) = let rest = stoi cs in if is_space c then rest else signed (c ∷ cs)

-- Whether `strtol` finds a digit: after spaces and a sign.
begins_number : Str → Bool
begins_number [] = false
begins_number (c ∷ []) = is_digit c
begins_number (c ∷ d ∷ cs) =
    let rest = begins_number (d ∷ cs) in
    if is_space c then rest else if c == 45 || c == 43 then is_digit d else is_digit c

number_or_zero : Bool → Option SignedInt → Option SignedInt
number_or_zero number (some n) = some n
number_or_zero true none = none
number_or_zero false none = some (false, 0)

-- `std::atoi`: 0 without a digit; `none` is a value out of range, which C leaves undefined.
unfoldable pub atoi : Str → Option SignedInt
unfolding begins_number is_space number_or_zero
atoi s = number_or_zero (begins_number s) (stoi s)

abbrev pub IsDigits : Str → Type 0
IsDigits [] = Unit
IsDigits (c ∷ cs) = (48 ≤ c) × (c ≤ 57) × IsDigits cs

digits_onto-IsDigits : (f n : ℕ) (acc : Str) → IsDigits acc → IsDigits (digits_onto f n acc)
unfolding digits_onto
digits_onto-IsDigits zero n acc h = h
digits_onto-IsDigits (suc f) n acc h = elim (Bool-cases (ltb n 10)) [
  | inl small ↦ rw small (omega (arith, ltb→lt n 10), omega (arith, ltb→lt n 10 small), h)
  | inr big ↦ rw big (digits_onto-IsDigits f (n / 10) _ (omega arith, omega arith, h))
]

pub to_string-IsDigits : (n : ℕ) → IsDigits (to_string n)
unfolding to_string
to_string-IsDigits n = digits_onto-IsDigits (suc n) n [] tt

digits_value-digits_onto :
    (f n : ℕ) (acc : Str) → n < f → digits_value 0 (digits_onto f n acc) ≡ digits_value n acc
unfolding digits_onto digits_value
digits_value-digits_onto zero n acc h = absurd (omega arith)
digits_value-digits_onto (suc f) n acc h = elim (Bool-cases (ltb n 10)) [
  | inl small ↦ rw small (ground arith)
  | inr big ↦ rw big (digits_value-digits_onto f (n / 10) _ (ground arith) ∙ ground arith)
]

digits_onto-eq-cons :
    (f n : ℕ) (acc : Str) → (c : ℕ) × (cs : Str) × (digits_onto (suc f) n acc ≡ c ∷ cs)
unfolding digits_onto
digits_onto-eq-cons zero n acc = elim (Bool-cases (ltb n 10)) [
  | inl small ↦ (n + 48, acc, rw small)
  | inr big ↦ (n % 10 + 48, acc, rw big)
]
digits_onto-eq-cons (suc f) n acc = elim (Bool-cases (ltb n 10)) [
  | inl small ↦ (n + 48, acc, rw small)
  | inr big ↦
      let (c, cs, e) = digits_onto-eq-cons f (n / 10) ((n % 10 + 48) ∷ acc) in (c, cs, rw big e)
]

digits_value-nil : (n : ℕ) → digits_value n [] ≡ n
unfolding digits_value
digits_value-nil n = refl

stoi-digits :
    (c : ℕ) (cs : Str)
    → IsDigits (c ∷ cs)
    → digits_value 0 (c ∷ cs) ≤ int_max
    → stoi (c ∷ cs) ≡ some (false, digits_value 0 (c ∷ cs))
unfolding stoi
stoi-digits c cs d h = ground arith

-- On a number that fits an `int`, `stoi` undoes `to_string`.
pub stoi-to_string : (n : ℕ) → n ≤ int_max → stoi (to_string n) ≡ some (false, n)
unfolding to_string
stoi-to_string n h =
    let (c, cs, e) = digits_onto-eq-cons n n [] in
    let d = rw e at (to_string-IsDigits n) in
    let v = digits_value-digits_onto (suc n) n [] (omega arith) in
    let w : digits_value 0 (c ∷ cs) ≡ n = rw e at (v ∙ digits_value-nil n) in
    rw e (stoi-digits c cs d (rw w h) ∙ rw w)

stoi-digits-overflow :
    (c : ℕ) (cs : Str)
    → IsDigits (c ∷ cs)
    → int_max < digits_value 0 (c ∷ cs)
    → stoi (c ∷ cs) ≡ none
unfolding stoi
stoi-digits-overflow c cs d h = ground arith

-- On a larger number it throws.
pub stoi-to_string-overflow : (n : ℕ) → int_max < n → stoi (to_string n) ≡ none
unfolding to_string
stoi-to_string-overflow n h =
    let (c, cs, e) = digits_onto-eq-cons n n [] in
    let d = rw e at (to_string-IsDigits n) in
    let v = digits_value-digits_onto (suc n) n [] (omega arith) in
    let w : digits_value 0 (c ∷ cs) ≡ n = rw e at (v ∙ digits_value-nil n) in
    rw e (stoi-digits-overflow c cs d (rw w h))

pub atoi-to_string : (n : ℕ) → n ≤ int_max → atoi (to_string n) ≡ some (false, n)
unfolding atoi number_or_zero
atoi-to_string n h = ap (number_or_zero (begins_number (to_string n))) (stoi-to_string n h)
