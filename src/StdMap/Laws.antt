-- ===== src/StdMap/Laws.antt =====
-- What a look-up finds after each operation.
use nat.Prelude.{
  ◌≡◌, refl, ◌∙◌, not, ◌&&◌, none, some, [], ◌∷◌, Str, str_eq, str_eq_iff, if◌then◌else◌, arith,
  Option-cases, inl, inr,
}
use nat.StdMap.Defs.{StdMap, find, has, place, insert, assign}

module _ {ℓ} {V : Type ℓ} where
  find-place :
      (k j : Str) (v : V) (m : StdMap V)
      → find k m ≡ none
      → find j (place k v m) ≡ (if str_eq k j then some v else find j m)
  unfolding find place
  find-place k j v [] h = refl
  find-place k j v ((i, w) ∷ m) h =
      ground (arith, find-place k j v m, str_eq_iff i k, str_eq_iff i j, str_eq_iff k j)

  -- `insert` adds its key if that is new, and changes no other.
  pub find-insert :
      (k j : Str) (v : V) (m : StdMap V)
      → find j (insert k v m) ≡ (if str_eq k j && not (has k m) then some v else find j m)
  unfolding insert
  find-insert k j v m = elim (Option-cases (find k m)) [
    | inl e ↦ rw (e, insert) (find-place k j v m e ∙ ground arith)
    | inr (w, e) ↦ rw (e, insert) (ground arith)
  ]

  pub find-assign :
      (k j : Str) (v : V) (m : StdMap V)
      → find j (assign k v m) ≡ (if str_eq k j && has k m then some v else find j m)
  unfolding find assign
  find-assign k j v [] = ground arith
  find-assign k j v ((i, w) ∷ m) =
      ground (arith, find-assign k j v m, str_eq_iff i k, str_eq_iff i j, str_eq_iff k j)
