-- ===== src/StdMap/Cursor.antt =====
-- Where an iterator over a `std::map` goes from an entry.
use nat.Prelude.{
  ◌≡◌, refl, ap, ◌∙◌, true, Option, none, some, [], ◌∷◌, Str, str_eq, str_eq_sound, str_eq_refl,
  str_lt, str_lt_trans, str_lt_irrefl, if◌then◌else◌, arith, Bool-cases, inl, inr, ◌⊎◌, subst,
}
use nat.StdMap.Defs.{StdMap, find, erase}
use nat.StdMap.Order.{Above, Above-mono, IsSorted}

module _ {ℓ} {V : Type ℓ} where
  -- The entries from the first key above `k` on.
  unfoldable pub beyond : Str → StdMap V → StdMap V
  beyond k [] = []
  beyond k ((j, v) ∷ m) = if str_lt k j then (j, v) ∷ m else beyond k m

  -- What an iterator has before it: at `begin()`, or behind the entry of a key. The entry may be gone:
  -- `m.erase(it++)` leaves `it` where `++it` would.
  abbrev pub past : Option Str → StdMap V → StdMap V
  past none m = m
  past (some k) m = beyond k m

  beyond-Above : (k : Str) (m : StdMap V) → Above k m → beyond k m ≡ m
  unfolding beyond
  beyond-Above k [] a = refl
  beyond-Above k ((j, v) ∷ m) a = rw (a.0) refl

  beyond_self : (k : Str) (v : V) (m : StdMap V) → Above k m → beyond k ((k, v) ∷ m) ≡ m
  unfolding beyond
  beyond_self k v m a = ground (arith, str_lt_irrefl k, beyond-Above k m a)

  erase-Above : (k : Str) (m : StdMap V) → Above k m → erase k m ≡ m
  unfolding erase
  erase-Above k [] a = refl
  erase-Above k ((j, v) ∷ m) a = elim (Bool-cases (str_eq j k)) [
    | inl e ↦ absurd (ground (arith, str_eq_sound j k e, a.0, str_lt_irrefl k))
    | inr e ↦ rw e (ap (λ l. (j, v) ∷ l) (erase-Above k m a.1))
  ]

  erase-erase : (k : Str) (m : StdMap V) → IsSorted m → erase k (erase k m) ≡ erase k m
  unfolding erase
  erase-erase k [] s = refl
  erase-erase k ((j, v) ∷ m) s = elim (Bool-cases (str_eq j k)) [
    | inl e ↦ rw e (erase-Above k m (subst (λ i. Above i m) (str_eq_sound j k e) s.0))
    | inr e ↦ rw (e, e) (ap (λ l. (j, v) ∷ l) (erase-erase k m s.1))
  ]

  -- A map after a turn at the key: as it was, or without the key.
  abbrev pub IsLeft : Str → StdMap V → StdMap V → Type ℓ
  IsLeft k m n = (n ≡ m) ⊎ (n ≡ erase k m)

  pub erase-IsLeft : (k : Str) (m n : StdMap V) → IsSorted m → IsLeft k m n → IsLeft k m (erase k n)
  erase-IsLeft k m n s (inl e) = inr (ap (erase k) e)
  erase-IsLeft k m n s (inr e) = inr (ap (erase k) e ∙ erase-erase k m s)

  pub beyond-erase : (k : Str) (m : StdMap V) → IsSorted m → beyond k (erase k m) ≡ beyond k m
  unfolding beyond erase
  beyond-erase k [] s = refl
  beyond-erase k ((j, v) ∷ m) s = elim (Bool-cases (str_lt k j)) [
    | inl lt ↦
        let kept = erase-Above k ((j, v) ∷ m) (lt, Above-mono k j m lt s.0) in ap (beyond k) kept
    | inr le ↦ elim (Bool-cases (str_eq j k)) [
      | inl e ↦ rw (e, le) refl
      | inr e ↦ rw (e, le) (beyond-erase k m s.1)
    ]
  ]

  Above-head :
      (j p k : Str) (v : V) (m es : StdMap V)
      → Above j m
      → beyond p m ≡ (k, v) ∷ es
      → str_lt j k ≡ true
  unfolding beyond
  Above-head j p k v [] es a e = cc
  Above-head j p k v ((i, w) ∷ m) es a e = elim (Bool-cases (str_lt p i)) [
    | inl lt ↦ ground (arith, rw lt at e, a.0)
    | inr le ↦ Above-head j p k v m es a.1 (rw le at e)
  ]

  beyond-cons :
      (p k : Str) (v : V) (m es : StdMap V)
      → IsSorted m
      → beyond p m ≡ (k, v) ∷ es
      → beyond k m ≡ es
  unfolding beyond
  beyond-cons p k v [] es s e = cc
  beyond-cons p k v ((j, w) ∷ m) es s e = elim (Bool-cases (str_lt p j)) [
    | inl lt ↦ ground (arith, rw lt at e, str_lt_irrefl k, beyond-Above j m s.0)
    | inr le ↦
        let below = Above-head j p k v m es s.0 (rw le at e) in
        let next = beyond-cons p k v m es s.1 (rw le at e) in
        elim (Bool-cases (str_lt k j)) [
          | inl lt ↦ absurd (ground (arith, str_lt_trans j k j below lt, str_lt_irrefl j))
          | inr q ↦ rw q next
        ]
  ]

  -- From an entry the iterator goes to the next one.
  pub past-cons :
      (pos : Option Str) (k : Str) (v : V) (m es : StdMap V)
      → IsSorted m
      → past pos m ≡ (k, v) ∷ es
      → past (some k) m ≡ es
  past-cons none k v m es s e = cons_case m s e
    where
      cons_case : (n : StdMap V) → IsSorted n → n ≡ (k, v) ∷ es → beyond k n ≡ es
      cons_case [] s e = cc
      cons_case ((j, w) ∷ n) s e = ground (arith, e, beyond_self j w n s.0)
  past-cons (some p) k v m es s e = beyond-cons p k v m es s e

  find-beyond :
      (p k : Str) (v : V) (m es : StdMap V)
      → IsSorted m
      → beyond p m ≡ (k, v) ∷ es
      → find k m ≡ some v
  unfolding beyond find
  find-beyond p k v [] es s e = cc
  find-beyond p k v ((j, w) ∷ m) es s e = elim (Bool-cases (str_lt p j)) [
    | inl lt ↦ head_case ((j, w) ∷ m) (rw lt at e)
    | inr le ↦
        let below = Above-head j p k v m es s.0 (rw le at e) in
        let rest = find-beyond p k v m es s.1 (rw le at e) in
        ground (arith, str_eq_sound j k, below, str_lt_irrefl j, rest)
  ]
    where
      head_case : (n : StdMap V) → n ≡ (k, v) ∷ es → find k n ≡ some v
      head_case n e = ap (find k) e ∙ rw (str_eq_refl k) refl

  -- The entry that the iterator is at is found.
  pub find-past :
      (pos : Option Str) (k : Str) (v : V) (m es : StdMap V)
      → IsSorted m
      → past pos m ≡ (k, v) ∷ es
      → find k m ≡ some v
  unfolding find
  find-past none k v m es s e = ap (find k) e ∙ rw (str_eq_refl k) refl
  find-past (some p) k v m es s e = find-beyond p k v m es s e
