-- ===== src/StdMap/Values.antt =====
-- A map whose values all have a property, and its operations.
use nat.Prelude.{
  Str, str_eq, str_lt, Option-cases, Bool-cases, inl, inr, some, [], ◌∷◌, ◌≡◌, subst, arith,
}
use nat.StdMap.Defs.{StdMap, find, place, insert, assign, erase}

module _ {V : Type 0} (P : V → Type 0) where
  abbrev pub AllValues : StdMap V → Type 0
  AllValues [] = Unit
  AllValues ((k, v) ∷ m) = P v × AllValues m

  pub find-AllValues : (k : Str) (v : V) (m : StdMap V) → AllValues m → find k m ≡ some v → P v
  unfolding find
  find-AllValues k v [] r h = absurd (ground arith)
  find-AllValues k v ((j, w) ∷ m) r h = elim (Bool-cases (str_eq j k)) [
    | inl here ↦ subst P (ground (arith, h, here)) r.0
    | inr other ↦ find-AllValues k v m r.1 (ground (arith, h, other))
  ]

  place-AllValues : (k : Str) (v : V) (m : StdMap V) → P v → AllValues m → AllValues (place k v m)
  unfolding place
  place-AllValues k v [] r p = (r, tt)
  place-AllValues k v ((j, w) ∷ m) r p = elim (Bool-cases (str_lt k j)) [
    | inl low ↦ rw low (r, p)
    | inr high ↦ rw high (p.0, place-AllValues k v m r p.1)
  ]

  pub insert-AllValues :
      (k : Str) (v : V) (m : StdMap V) → P v → AllValues m → AllValues (insert k v m)
  unfolding insert
  insert-AllValues k v m r p = elim (Option-cases (find k m)) [
    | inl e ↦ rw (e, insert) (place-AllValues k v m r p)
    | inr (w, e) ↦ rw (e, insert) p
  ]

  pub assign-AllValues :
      (k : Str) (v : V) (m : StdMap V) → P v → AllValues m → AllValues (assign k v m)
  unfolding assign
  assign-AllValues k v [] d r = tt
  assign-AllValues k v ((j, w) ∷ m) d r = elim (Bool-cases (str_eq j k)) [
    | inl here ↦ rw here (d, r.1)
    | inr other ↦ rw other (r.0, assign-AllValues k v m d r.1)
  ]

  pub erase-AllValues : (k : Str) (m : StdMap V) → AllValues m → AllValues (erase k m)
  unfolding erase
  erase-AllValues k [] r = tt
  erase-AllValues k ((j, w) ∷ m) r = elim (Bool-cases (str_eq j k)) [
    | inl here ↦ rw here (r.1)
    | inr other ↦ rw other (r.0, erase-AllValues k m r.1)
  ]
