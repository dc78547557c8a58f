-- ===== src/Clock/Lines.antt =====
-- The text of `getCurrentTime` stands on one line.
use nat.Prelude.{
  ℕ, zero, suc, ◌+◌, Str, to_string, IsDigits, to_string-IsDigits, some, List, [], ◌∷◌, ◌++◌, ◌≡◌,
  ◌≢◌, refl, All, All-append, ltb, arith, Bool-cases, inl, inr,
}
use nat.Clock.{
  Tm, name_in, day_names, month_names, two_digits, three_wide, date_text, asctime, pop_back,
  get_current_time,
}

-- No newline.
abbrev pub IsLine : Str → Type 0
IsLine = All (λ c. c ≢ 10)

pop_back-append : (s : Str) (c : ℕ) → pop_back (s ++ (c ∷ [])) ≡ some s
unfolding pop_back
pop_back-append [] c = refl
pop_back-append (d ∷ []) c = refl
pop_back-append (d ∷ e ∷ s) c = rw (pop_back-append (e ∷ s) c) refl

IsDigits-IsLine : (s : Str) → IsDigits s → IsLine s
IsDigits-IsLine [] h = tt
IsDigits-IsLine (c ∷ cs) h = (omega arith, IsDigits-IsLine cs h.2)

pub to_string-IsLine : (n : ℕ) → IsLine (to_string n)
to_string-IsLine n = IsDigits-IsLine (to_string n) (to_string-IsDigits n)

name_in-IsLine : (names : List Str) (i : ℕ) → All IsLine names → IsLine (name_in names i)
name_in-IsLine [] i h = omega arith
name_in-IsLine (n ∷ ns) zero h = h.0
name_in-IsLine (n ∷ ns) (suc i) h = name_in-IsLine ns i h.1

two_digits-IsLine : (n : ℕ) → IsLine (two_digits n)
two_digits-IsLine n = elim (Bool-cases (ltb n 10)) [
  | inl e ↦ rw e (omega arith, to_string-IsLine n)
  | inr e ↦ rw e (to_string-IsLine n)
]

three_wide-IsLine : (n : ℕ) → IsLine (three_wide n)
three_wide-IsLine n = elim (Bool-cases (ltb n 10)) [
  | inl e ↦ rw e (omega arith, (omega arith, to_string-IsLine n))
  | inr e ↦ elim (Bool-cases (ltb n 100)) [
    | inl f ↦ rw (e, f) (omega arith, to_string-IsLine n)
    | inr f ↦ rw (e, f) (to_string-IsLine n)
  ]
]

pub append-IsLine : (a b : Str) → IsLine a → IsLine b → IsLine (a ++ b)
append-IsLine a b = All-append (λ c. c ≢ 10) a b

pub date_text-IsLine : (t : Tm) → IsLine (date_text t)
unfolding date_text
date_text-IsLine t = append-IsLine _ _ (name_in-IsLine day_names t.wday (omega arith)) (
  omega arith,
  append-IsLine _ _ (name_in-IsLine month_names t.mon (omega arith)) (
      append-IsLine _ _ (three_wide-IsLine t.mday) (
        omega arith,
        append-IsLine _ _ (two_digits-IsLine t.hour) (
          omega arith,
          append-IsLine _ _ (two_digits-IsLine t.min) (
            omega arith,
            append-IsLine _ _ (two_digits-IsLine t.sec)
                (omega arith, to_string-IsLine (t.year + 1900)),
          ),
        ),
      )),
)

pub pop_back-asctime : (t : Tm) → pop_back (asctime t) ≡ some (date_text t)
unfolding asctime
pop_back-asctime t = pop_back-append (date_text t) 10

-- Whatever the time zone and the time, `getCurrentTime` has a character to take off the text of
-- `asctime`: what is left is all of that text but its newline, and has no newline in it.
pub get_current_time-IsLine :
    (localtime : ℕ → Tm) (now : ℕ)
    → (text : Str) × (get_current_time localtime now ≡ some text)
      × (asctime (localtime now) ≡ text ++ (10 ∷ []))
      × IsLine text
unfolding get_current_time asctime
get_current_time-IsLine localtime now =
    let text = date_text (localtime now) in
    (text, pop_back-asctime (localtime now), refl, date_text-IsLine (localtime now))
