-- ===== src/StdMap/Order.antt =====
-- The order of the keys of a map.
use nat.Prelude.{
  ◌≡◌, refl, none, true, [], ◌∷◌, Str, str_eq, str_eq_iff, str_lt, str_lt_trans, str_lt_total,
  str_lt_irrefl, if◌then◌else◌, arith, Option-cases, inl, inr,
}
use nat.StdMap.Defs.{StdMap, find, place, insert, assign, erase}

module _ {ℓ} {V : Type ℓ} where
  -- Every key is above `k`.
  abbrev pub Above : Str → StdMap V → Type 0
  Above k [] = Unit
  Above k ((j, v) ∷ m) = (str_lt k j ≡ true) × Above k m

  abbrev pub IsSorted : StdMap V → Type 0
  IsSorted [] = Unit
  IsSorted ((k, v) ∷ m) = Above k m × IsSorted m

  pub Above-mono : (i k : Str) (m : StdMap V) → str_lt i k ≡ true → Above k m → Above i m
  Above-mono i k [] h a = tt
  Above-mono i k ((j, v) ∷ m) h a = (str_lt_trans i k j h a.0, Above-mono i k m h a.1)

  pub Above-find : (k : Str) (m : StdMap V) → Above k m → find k m ≡ none
  unfolding find
  Above-find k [] a = refl
  Above-find k ((j, v) ∷ m) a = ground (arith, Above-find k m a.1, str_eq_iff j k, str_lt_irrefl k)

  Above-place :
      (i k : Str) (v : V) (m : StdMap V) → str_lt i k ≡ true → Above i m → Above i (place k v m)
  unfolding place
  Above-place i k v [] h a = (h, tt)
  Above-place i k v ((j, w) ∷ m) h a = ground (arith, Above-place i k v m h a.1)

  place-IsSorted :
      (k : Str) (v : V) (m : StdMap V) → find k m ≡ none → IsSorted m → IsSorted (place k v m)
  unfolding place find
  place-IsSorted k v [] e s = (tt, tt)
  place-IsSorted k v ((j, w) ∷ m) e s = ground (
    arith,
    Above-mono k j m,
    str_lt_total k j,
    str_eq_iff k j,
    str_eq_iff j k,
    Above-place j k v m,
    place-IsSorted k v m,
  )

  pub insert-IsSorted : (k : Str) (v : V) (m : StdMap V) → IsSorted m → IsSorted (insert k v m)
  unfolding insert
  insert-IsSorted k v m s = elim (Option-cases (find k m)) [
    | inl e ↦ rw (e, insert) (place-IsSorted k v m e s)
    | inr (w, e) ↦ rw (e, insert) s
  ]

  Above-assign : (i k : Str) (v : V) (m : StdMap V) → Above i m → Above i (assign k v m)
  unfolding assign
  Above-assign i k v [] a = tt
  Above-assign i k v ((j, w) ∷ m) a = ground (arith, Above-assign i k v m a.1)

  pub assign-IsSorted : (k : Str) (v : V) (m : StdMap V) → IsSorted m → IsSorted (assign k v m)
  unfolding assign
  assign-IsSorted k v [] s = tt
  assign-IsSorted k v ((j, w) ∷ m) s =
      ground (arith, assign-IsSorted k v m s.1, Above-assign j k v m s.0)

  Above-erase : (i k : Str) (m : StdMap V) → Above i m → Above i (erase k m)
  unfolding erase
  Above-erase i k [] a = tt
  Above-erase i k ((j, w) ∷ m) a = ground (arith, Above-erase i k m a.1)

  pub erase-IsSorted : (k : Str) (m : StdMap V) → IsSorted m → IsSorted (erase k m)
  unfolding erase
  erase-IsSorted k [] s = tt
  erase-IsSorted k ((j, w) ∷ m) s = ground (arith, erase-IsSorted k m s.1, Above-erase j k m s.0)

  -- So an erased key is gone, and every other stays.
  pub find-erase :
      (k j : Str) (m : StdMap V)
      → IsSorted m
      → find j (erase k m) ≡ (if str_eq k j then none else find j m)
  unfolding find erase
  find-erase k j [] s = ground arith
  find-erase k j ((i, w) ∷ m) s = ground (
    arith,
    find-erase k j m s.1,
    str_eq_iff i k,
    str_eq_iff i j,
    str_eq_iff k j,
    Above-find i m s.0,
  )
