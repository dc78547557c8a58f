-- ===== src/StdMap/Iterator.antt =====
-- An iterator over a `std::map` as the key of the entry that it is at.
use nat.Prelude.{
  Str, str_eq, str_eq_iff, str_eq_refl, str_eq_sound, str_lt, str_lt_irrefl, not, ◌&&◌, Option,
  none, some, true, false, [], ◌∷◌, ◌≡◌, refl, ◌∙◌, arith, Bool-cases, inl, inr,
}
use nat.StdMap.Defs.{StdMap, find, has, insert, assign, erase}
use nat.StdMap.Laws.{find-insert, find-assign}
use nat.StdMap.Cursor.{beyond}

-- `begin()`: the key of the entry, or `none` for `end()`.
unfoldable pub first_key : {V : Type 0} → StdMap V → Option Str
first_key [] = none
first_key ((k, v) ∷ m) = some k

-- Where `++it` leads from the entry of a key.
abbrev pub next_key : {V : Type 0} → Str → StdMap V → Option Str
next_key k m = first_key (beyond k m)

differs : (k j : Str) → str_lt k j ≡ true → str_eq k j ≡ false
differs k j lt = elim (Bool-cases (str_eq k j)) [
  | inl e ↦ absurd (ground (arith, str_eq_sound k j e, lt, str_lt_irrefl k))
  | inr e ↦ e
]

some_inj : {A : Type 0} {a b : A} → some a ≡ some b → a ≡ b
some_inj e = cc

module _ {V : Type 0} where
  -- The iterator is at `end()`, or at an entry that is there.
  abbrev pub IsAt : Option Str → StdMap V → Type 0
  IsAt none m = Unit
  IsAt (some k) m = (v : V) × (find k m ≡ some v)

  pub first_key-IsAt : (m : StdMap V) → IsAt (first_key m) m
  unfolding first_key find
  first_key-IsAt [] = tt
  first_key-IsAt ((k, v) ∷ m) = (v, rw (str_eq_refl k) refl)

  later-IsAt : (p : Option Str) (i : Str) (w : V) (m : StdMap V) → IsAt p m → IsAt p ((i, w) ∷ m)
  unfolding find
  later-IsAt none i w m h = tt
  later-IsAt (some j) i w m (v, e) = elim (Bool-cases (str_eq i j)) [
    | inl here ↦ (w, rw here refl)
    | inr other ↦ (v, rw (other, e) refl)
  ]

  pub next_key-IsAt : (k : Str) (m : StdMap V) → IsAt (next_key k m) m
  unfolding beyond
  next_key-IsAt k [] = first_key-IsAt []
  next_key-IsAt k ((i, w) ∷ m) = elim (Bool-cases (str_lt k i)) [
    | inl above ↦ rw above (first_key-IsAt ((i, w) ∷ m))
    | inr below ↦ rw below (later-IsAt (next_key k m) i w m (next_key-IsAt k m))
  ]

  pub IsAt-insert :
      (p : Option Str) (k : Str) (v : V) (m : StdMap V) → IsAt p m → IsAt p (insert k v m)
  IsAt-insert none k v m h = tt
  IsAt-insert (some j) k v m (w, e) = elim (Bool-cases (str_eq k j && not (has k m))) [
    | inl new ↦ (v, find-insert k j v m ∙ rw new refl)
    | inr old ↦ (w, find-insert k j v m ∙ rw old e)
  ]

  pub IsAt-assign :
      (p : Option Str) (k : Str) (v : V) (m : StdMap V) → IsAt p m → IsAt p (assign k v m)
  IsAt-assign none k v m h = tt
  IsAt-assign (some j) k v m (w, e) = elim (Bool-cases (str_eq k j && has k m)) [
    | inl old ↦ (v, find-assign k j v m ∙ rw old refl)
    | inr new ↦ (w, find-assign k j v m ∙ rw new e)
  ]

  find-erase_other : (k j : Str) (m : StdMap V) → str_eq k j ≡ false → find j (erase k m) ≡ find j m
  unfolding find erase
  find-erase_other k j [] off = refl
  find-erase_other k j ((i, w) ∷ m) off =
      ground (arith, find-erase_other k j m off, str_eq_iff i k, str_eq_iff i j, str_eq_iff k j)

  pub IsAt-erase :
      (p : Option Str) (k : Str) (m : StdMap V)
      → ((j : Str) → p ≡ some j → str_lt k j ≡ true)
      → IsAt p m
      → IsAt p (erase k m)
  IsAt-erase none k m above h = tt
  IsAt-erase (some j) k m above (w, e) =
      (w, find-erase_other k j m (differs k j (above j refl)) ∙ e)

  next_key-above : (k j : Str) (m : StdMap V) → next_key k m ≡ some j → str_lt k j ≡ true
  unfolding beyond first_key
  next_key-above k j [] e = absurd (ground arith)
  next_key-above k j ((i, w) ∷ m) e = elim (Bool-cases (str_lt k i)) [
    | inl above ↦ let f : some i ≡ some j = rw above at e in rw (some_inj f) at above
    | inr below ↦ next_key-above k j m (rw below at e)
  ]

  pub next_key-erase : (k : Str) (m : StdMap V) → IsAt (next_key k m) (erase k m)
  next_key-erase k m = IsAt-erase (next_key k m) k m (λ j. next_key-above k j m) (next_key-IsAt k m)
