-- ===== src/Sample/Codec.antt =====
-- JSON values, and a text for each from which it is read back. The text is not JSON's: what matters
-- is that values survive the way through it.
use nat.Prelude.{
  ℕ, zero, suc, ◌+◌, ◌≤◌, ◌≡◌, refl, ap, ◌≢◌, Option, none, some, [], ◌∷◌, ◌++◌, map, Str, arith,
  length, replicate,
}

mutual
  pub data Value : Type 0 where
    null : Value
    str : Str → Value
    num : ℕ → Value
    arr : Items → Value
    obj : Fields → Value

  pub data Items : Type 0 where
    nil : Items
    cons : Value → Items → Items

  pub data Fields : Type 0 where
    end : Fields
    field : Str → Value → Fields → Fields

abbrev print_str : Str → Str → Str
print_str [] r = 0 ∷ r
print_str (c ∷ cs) r = suc c ∷ print_str cs r

mutual
  print : Value → Str → Str
  print null r = 0 ∷ r
  print (str s) r = 1 ∷ print_str s r
  print (num n) r = 2 ∷ n ∷ r
  print (arr xs) r = 3 ∷ print_items xs r
  print (obj fs) r = 4 ∷ print_fields fs r

  print_items : Items → Str → Str
  print_items nil r = 0 ∷ r
  print_items (cons x xs) r = 1 ∷ print x (print_items xs r)

  print_fields : Fields → Str → Str
  print_fields end r = 0 ∷ r
  print_fields (field k v fs) r = 1 ∷ print_str k (print v (print_fields fs r))

infixl 10 ◌>>=◌
abbrev ◌>>=◌ : {A B : Type 0} → Option A → (A → Option B) → Option B
none >>= k = none
some a >>= k = k a

abbrev read_str : Str → Option (Str × Str)
read_str [] = none
read_str (zero ∷ r) = some ([], r)
read_str (suc c ∷ r) = read_str r >>= λ p. some (c ∷ p.0, p.1)

mutual
  read : ℕ → Str → Option (Value × Str)
  read zero t = none
  read (suc f) [] = none
  read (suc f) (zero ∷ r) = some (null, r)
  read (suc f) (suc zero ∷ r) = read_str r >>= λ p. some (str p.0, p.1)
  read (suc f) (suc (suc zero) ∷ []) = none
  read (suc f) (suc (suc zero) ∷ n ∷ r) = some (num n, r)
  read (suc f) (suc (suc (suc zero)) ∷ r) = read_items f r >>= λ p. some (arr p.0, p.1)
  read (suc f) (suc (suc (suc (suc c))) ∷ r) = read_fields f r >>= λ p. some (obj p.0, p.1)

  read_items : ℕ → Str → Option (Items × Str)
  read_items zero t = none
  read_items (suc f) [] = none
  read_items (suc f) (zero ∷ r) = some (nil, r)
  read_items (suc f) (suc c ∷ r) =
      read f r >>= λ p. read_items f p.1 >>= λ q. some (cons p.0 q.0, q.1)

  read_fields : ℕ → Str → Option (Fields × Str)
  read_fields zero t = none
  read_fields (suc f) [] = none
  read_fields (suc f) (zero ∷ r) = some (end, r)
  read_fields (suc f) (suc c ∷ r) = read_str r >>= λ k.
      read f k.1 >>= λ p. read_fields f p.1 >>= λ q. some (field k.0 p.0 q.0, q.1)

read_str-print_str : (s r : Str) → read_str (print_str s r) ≡ some (s, r)
read_str-print_str [] r = refl
read_str-print_str (c ∷ cs) r = rw (read_str-print_str cs r)

mutual
  weight : Value → ℕ
  weight null = 1
  weight (str s) = 1
  weight (num n) = 1
  weight (arr xs) = suc (weight_items xs)
  weight (obj fs) = suc (weight_fields fs)

  weight_items : Items → ℕ
  weight_items nil = 1
  weight_items (cons x xs) = suc (weight x + weight_items xs)

  weight_fields : Fields → ℕ
  weight_fields end = 1
  weight_fields (field k v fs) = suc (weight v + weight_fields fs)

length-print_str : (s r : Str) → length r ≤ length (print_str s r)
length-print_str [] r = omega arith
length-print_str (c ∷ cs) r = omega (arith, length-print_str cs r)

mutual
  unfolding print weight

  length-print : (j : Value) (r : Str) → weight j + length r ≤ length (print j r)
  length-print null r = omega arith
  length-print (str s) r = omega (arith, length-print_str s r)
  length-print (num n) r = omega arith
  length-print (arr xs) r = omega (arith, length-print_items xs r)
  length-print (obj fs) r = omega (arith, length-print_fields fs r)

  length-print_items :
      (xs : Items) (r : Str) → weight_items xs + length r ≤ length (print_items xs r)
  length-print_items nil r = omega arith
  length-print_items (cons x xs) r =
      omega (arith, length-print x (print_items xs r), length-print_items xs r)

  length-print_fields :
      (fs : Fields) (r : Str) → weight_fields fs + length r ≤ length (print_fields fs r)
  length-print_fields end r = omega arith
  length-print_fields (field k v fs) r = omega (
    arith,
    length-print_str k (print v (print_fields fs r)),
    length-print v (print_fields fs r),
    length-print_fields fs r,
  )

mutual
  unfolding print weight read

  read-print : (j : Value) (f : ℕ) (r : Str) → weight j ≤ f → read f (print j r) ≡ some (j, r)
  read-print null zero r h = absurd (omega arith)
  read-print null (suc f) r h = refl
  read-print (str s) zero r h = absurd (omega arith)
  read-print (str s) (suc f) r h = rw (read_str-print_str s r)
  read-print (num n) zero r h = absurd (omega arith)
  read-print (num n) (suc f) r h = refl
  read-print (arr xs) zero r h = absurd (omega arith)
  read-print (arr xs) (suc f) r h = rw (read_items-print xs f r (omega arith))
  read-print (obj fs) zero r h = absurd (omega arith)
  read-print (obj fs) (suc f) r h = rw (read_fields-print fs f r (omega arith))

  read_items-print :
      (xs : Items) (f : ℕ) (r : Str)
      → weight_items xs ≤ f
      → read_items f (print_items xs r) ≡ some (xs, r)
  read_items-print nil zero r h = absurd (omega arith)
  read_items-print nil (suc f) r h = refl
  read_items-print (cons x xs) zero r h = absurd (omega arith)
  read_items-print (cons x xs) (suc f) r h =
      rw (read-print x f (print_items xs r) (omega arith))
        (rw (read_items-print xs f r (omega arith)))

  read_fields-print :
      (fs : Fields) (f : ℕ) (r : Str)
      → weight_fields fs ≤ f
      → read_fields f (print_fields fs r) ≡ some (fs, r)
  read_fields-print end zero r h = absurd (omega arith)
  read_fields-print end (suc f) r h = refl
  read_fields-print (field k v fs) zero r h = absurd (omega arith)
  read_fields-print (field k v fs) (suc f) r h =
      rw (read_str-print_str k (print v (print_fields fs r))) (
        rw (read-print v f (print_fields fs r) (omega arith))
          (rw (read_fields-print fs f r (omega arith))))

-- Up to the first zero byte.
abbrev cut : Str → Str
cut [] = []
cut (zero ∷ r) = []
cut (suc c ∷ r) = c ∷ cut r

cut-map : (t : Str) → cut (map suc t) ≡ t
cut-map [] = refl
cut-map (c ∷ t) = ap (◌∷◌ c) (cut-map t)

cut-padded : (t : Str) (n : ℕ) → cut (t ++ replicate n 0) ≡ cut t
cut-padded [] zero = refl
cut-padded [] (suc n) = refl
cut-padded (zero ∷ t) n = refl
cut-padded (suc c ∷ t) n = ap (◌∷◌ c) (cut-padded t n)

abbrev complete : Option (Value × Str) → Option Value
complete none = none
complete (some (j, [])) = some j
complete (some (j, c ∷ r)) = none

unfoldable pub dump : Value → Str
unfolding print
dump j = map suc (print j [])

unfoldable pub parse : Str → Option Value
unfolding read
parse t = complete (read (length (cut t)) (cut t))

pub parse-dump : (j : Value) → parse (dump j) ≡ some j
unfolding parse dump
parse-dump j =
    rw (
      cut-map (print j []),
      read-print j (length (print j [])) [] (omega (arith, length-print j [])),
    )

pub parse-padded : (t : Str) (n : ℕ) → parse (t ++ replicate n 0) ≡ parse t
unfolding parse
parse-padded t n = rw (cut-padded t n)

pub dump-ne-nil : (j : Value) → dump j ≢ []
unfolding dump
dump-ne-nil null e = cc
dump-ne-nil (str s) e = cc
dump-ne-nil (num n) e = cc
dump-ne-nil (arr xs) e = cc
dump-ne-nil (obj fs) e = cc
