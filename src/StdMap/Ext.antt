-- ===== src/StdMap/Ext.antt =====
-- A map in order is what it answers to `find`.
use nat.Prelude.{
  ◌≡◌, refl, sym, ap, ◌∙◌, subst, true, false, Option, none, some, [], ◌∷◌, Str, str_eq,
  str_eq_refl, str_eq_sound, str_lt, str_lt_total, Bool-cases, inl, inr,
}
use nat.StdMap.Defs.{StdMap, find}
use nat.StdMap.Order.{Above, Above-mono, Above-find, IsSorted}

module _ {ℓ} {V : Type ℓ} where
  find_here : (k : Str) (v : V) (m : StdMap V) → find k ((k, v) ∷ m) ≡ some v
  unfolding find
  find_here k v m = rw (str_eq_refl k) refl

  find_other :
      (i k : Str) (v : V) (m : StdMap V) → str_eq k i ≡ false → find i ((k, v) ∷ m) ≡ find i m
  unfolding find
  find_other i k v m h = rw h refl

  some_inj : {a b : V} → some a ≡ some b → a ≡ b
  some_inj e = cc

  some-none : (v : V) (o : Option V) → o ≡ none → some v ≡ o → ⊥
  some-none v o e h = cc

  -- The first entries of maps that answer alike have the same key.
  no_less :
      (j k : Str) (v w : V) (m n : StdMap V)
      → IsSorted ((k, w) ∷ n)
      → str_lt j k ≡ true
      → find j ((j, v) ∷ m) ≡ find j ((k, w) ∷ n)
      → ⊥
  no_less j k v w m n s lt h =
      some-none v (find j ((k, w) ∷ n)) (Above-find j ((k, w) ∷ n) (lt, Above-mono j k n lt s.0))
        (sym (find_here j v m) ∙ h)

  tails :
      (k : Str) (v : V) (m n : StdMap V)
      → Above k m
      → Above k n
      → ((i : Str) → find i ((k, v) ∷ m) ≡ find i ((k, v) ∷ n))
      → (i : Str) → find i m ≡ find i n
  tails k v m n a b h i = elim (Bool-cases (str_eq k i)) [
    | inl e ↦
        subst (λ x. find x m ≡ find x n) (str_eq_sound k i e)
          (Above-find k m a ∙ sym (Above-find k n b))
    | inr e ↦ sym (find_other i k v m e) ∙ h i ∙ find_other i k v n e
  ]

  pub find-ext :
      (m n : StdMap V) → IsSorted m → IsSorted n → ((k : Str) → find k m ≡ find k n) → m ≡ n
  find-ext [] [] s t h = refl
  find-ext [] ((k, w) ∷ n) s t h =
      absurd (some-none w (find k []) (Above-find k [] tt) (sym (find_here k w n) ∙ sym (h k)))
  find-ext ((j, v) ∷ m) [] s t h =
      absurd (some-none v (find j []) (Above-find j [] tt) (sym (find_here j v m) ∙ h j))
  find-ext ((j, v) ∷ m) ((k, w) ∷ n) s t h = elim (Bool-cases (str_eq j k)) [
    | inl e ↦
        let key = str_eq_sound j k e in
        let value =
          some_inj
            (sym (find_here j v m) ∙ h j ∙ ap (λ x. find x ((k, w) ∷ n)) key ∙ find_here k w n) in
        let entry : ◌≡◌ {A = Str × V} (j, v) (k, w) = λ i. (key i, value i) in
        let rest =
          tails j v m n s.0 (subst (λ x. Above x n) (sym key) t.0)
            (λ i. h i ∙ sym (ap (λ e. find i (e ∷ n)) entry)) in
        ap (λ l. (j, v) ∷ l) (find-ext m n s.1 t.1 rest) ∙ ap (λ e. e ∷ n) entry
    | inr ne ↦ elim (Bool-cases (str_lt j k)) [
      | inl lt ↦ absurd (no_less j k v w m n t lt (h j))
      | inr ge ↦ absurd (no_less k j w v n m s (str_lt_total j k ne ge) (sym (h k)))
    ]
  ]
