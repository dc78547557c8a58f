-- ===== src/Server/Interleave/Expiry.antt =====
-- How the timer's look at one entry of `fCkTimeMap` (`threadhandle`, server.cpp) can be undefined.
use nat.Prelude.{
  ℕ, Str, codes, str_eq, Bool, true, Option, none, some, List, [], ◌∷◌, get_elem?, stoi, ◌≡◌, refl,
  Option-cases, Bool-cases, inl, inr, arith,
}
use nat.StdMap.{find}
use nat.External.{Env}
use nat.Effect.{exception, undefined, fails, M, pure, gets, ◌>>=◌, ◌>>◌, if◌run◌else◌}
use nat.Effect.Throws.{Throws, at_fault, throws_rules}
use nat.Server.State.{Server, erase_check, assign_node}
use nat.Server.Timer.{is_late, check_entry, expire_check, filter_host}
use nat.Server.Filtering.{mark_filtering}

get_elem?-beyond_one : {A : Type 0} (l : List A) → get_elem? l 1 ≡ none → get_elem? l 4 ≡ none
get_elem?-beyond_one [] e = refl
get_elem?-beyond_one (a ∷ []) e = refl
get_elem?-beyond_one (a ∷ b ∷ l) e = absurd (ground arith)

get_elem?-beyond_zero : {A : Type 0} (l : List A) → get_elem? l 0 ≡ none → get_elem? l 4 ≡ none
get_elem?-beyond_zero [] e = refl
get_elem?-beyond_zero (a ∷ l) e = absurd (ground arith)

-- What code that fails by exceptions alone does not do.
pub unless_thrown : {S A : Type 0} (m : M S A) (s v : S) → Throws m → m s ≡ fails undefined v → ⊥
unless_thrown m s v t e = let q : undefined ≡ exception = at_fault t s undefined v e in cc

module _ {J : Type 0} (E : Env J) where
  Throws-mark_filtering :
      (filtering node text : Str) → Throws (mark_filtering E filtering node text)
  unfolding mark_filtering assign_node
  Throws-mark_filtering filtering node text = search throws_rules depth 12

  Throws-filter_host : (host : Str) (o : Option Str) → Throws (filter_host E host o)
  unfolding filter_host
  Throws-filter_host host none = search throws_rules
  Throws-filter_host host (some text) = Throws-mark_filtering _ host text

  -- What becomes of a late probe.
  abbrev expired : Str → Str → M (Server J) Bool
  expired id host = do
    hosts ← gets (λ s. s.host_list)
    filter_host E host (find host hosts)
    erase_check id
    pure true

  Throws-expired : (id host : Str) → Throws (expired id host)
  unfolding erase_check
  Throws-expired id host = search (throws_rules, Throws-filter_host) depth 12

  expire_check-undefined :
      (id kind host : Str) (s v : Server J) → expire_check E id kind host s ≡ fails undefined v → ⊥
  unfolding expire_check ◌>>=◌ if◌run◌else◌
  expire_check-undefined id kind host s v h = elim (Bool-cases (str_eq kind (codes "filtering"))) [
    | inl e ↦ unless_thrown (expired id host) s v (Throws-expired id host) (rw e at h)
    | inr e ↦ let q = rw e at h in cc
  ]

  pub check_entry-undefined :
      (now : ℕ) (id key : Str) (s v : Server J)
      → check_entry E now id key s ≡ fails undefined v
      → get_elem? (E.split key) 4 ≡ none
  unfolding check_entry ◌>>=◌ if◌run◌else◌
  check_entry-undefined now id key s v h = elim (Option-cases (get_elem? (E.split key) 1)) [
    | inl e ↦ get_elem?-beyond_one (E.split key) e
    | inr (stamp, e) ↦ elim (Option-cases (stoi stamp)) [
      | inl f ↦ absurd (let q = rw (e, f) at h in cc)
      | inr (time, f) ↦ elim (Option-cases (get_elem? (E.split key) 4)) [
        | inl g ↦ g
        | inr (host, g) ↦ elim (Option-cases (get_elem? (E.split key) 0)) [
          | inl p ↦ get_elem?-beyond_zero (E.split key) p
          | inr (kind, p) ↦ elim (Bool-cases (is_late now time)) [
            | inl late ↦
                absurd (expire_check-undefined id kind host s v (rw (e, f, g, p, late) at h))
            | inr early ↦ absurd (let q = rw (e, f, g, p, early) at h in cc)
          ]
        ]
      ]
    ]
  ]
