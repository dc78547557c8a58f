-- ===== src/StdMap/Defs.antt =====
-- The operations of `std::map` that the node uses.
use nat.Prelude.{
  Bool, true, false, Option, none, some, List, [], ◌∷◌, Str, str_eq, str_lt, if◌then◌else◌,
}

abbrev pub StdMap {ℓ} : Type ℓ → Type ℓ
StdMap V = List (Str × V)

module _ {ℓ} {V : Type ℓ} where
  -- `find`, with `none` for `end()`.
  unfoldable pub find : Str → StdMap V → Option V
  find k [] = none
  find k ((j, v) ∷ m) = if str_eq j k then some v else find k m

  abbrev pub has : Str → StdMap V → Bool
  has k m = elim (find k m) [ none ↦ false | some v ↦ true ]

  -- A new key goes before the first key above it.
  unfoldable pub place : Str → V → StdMap V → StdMap V
  place k v [] = (k, v) ∷ []
  place k v ((j, w) ∷ m) = if str_lt k j then (k, v) ∷ (j, w) ∷ m else (j, w) ∷ place k v m

  -- `insert` leaves a key that is there as it is.
  unfoldable pub insert : Str → V → StdMap V → StdMap V
  insert k v m = elim (find k m) [ none ↦ place k v m | some w ↦ m ]

  -- `it->second = v` at the entry that `find` returns.
  unfoldable pub assign : Str → V → StdMap V → StdMap V
  assign k v [] = []
  assign k v ((j, w) ∷ m) = if str_eq j k then (j, v) ∷ m else (j, w) ∷ assign k v m

  -- `erase` of the entry that `find` returns.
  unfoldable pub erase : Str → StdMap V → StdMap V
  erase k [] = []
  erase k ((j, w) ∷ m) = if str_eq j k then m else (j, w) ∷ erase k m

-- `std::set::insert`.
unfoldable pub add : Str → List Str → List Str
add k [] = k ∷ []
add k (j ∷ s) = if str_eq k j then j ∷ s else if str_lt k j then k ∷ j ∷ s else j ∷ add k s
