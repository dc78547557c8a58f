-- ===== src/Sample/Boosted.antt =====
-- Splitting, casting and UUIDs, with the laws of the interface.
use nat.Prelude.{
  ℕ, ◌+◌, ◌^◌, ◌<◌, ◌≡◌, refl, ◌≢◌, Option, none, some, not, ◌&&◌, List, [], ◌∷◌, ◌++◌, Str, str_eq,
  ltb, ◌==◌, if◌then◌else◌, arith, to_string, stoi, stoi-to_string, SignedInt,
}
use nat.External.{Boost, IsPlain}

abbrev push_front : ℕ → List Str → List Str
push_front c [] = (c ∷ []) ∷ []
push_front c (t ∷ ts) = (c ∷ t) ∷ ts

unfoldable pub split : Str → List Str
split [] = [] ∷ []
split (c ∷ cs) = let rest = split cs in if c == 95 then [] ∷ rest else push_front c rest

pub split-plain : (a : Str) → IsPlain a → split a ≡ a ∷ []
unfolding split
split-plain [] h = refl
split-plain (c ∷ cs) h = rw (split-plain cs h.1) (ground (arith, h.0))

pub split-join : (a r : Str) → IsPlain a → split (a ++ 95 ∷ r) ≡ a ∷ split r
unfolding split
split-join [] r h = refl
split-join (c ∷ cs) r h = rw (split-join cs r h.1) (ground (arith, h.0))

pub split-ne-nil : (s : Str) → split s ≢ []
unfolding split
split-ne-nil [] e = cc
split-ne-nil (c ∷ cs) e = ground (arith, split-ne-nil cs)

abbrev port_of : Option SignedInt → Option ℕ
port_of none = none
port_of (some (negative, n)) = if not negative && ltb n (2 ^ 16) then some n else none

unfoldable pub lexical_cast : Str → Option ℕ
lexical_cast s = port_of (stoi s)

pub lexical_cast-to_string : (n : ℕ) → n < 2 ^ 16 → lexical_cast (to_string n) ≡ some n
unfolding lexical_cast
lexical_cast-to_string n h = rw (stoi-to_string n (omega arith)) (ground arith)

abbrev pub boosted : Boost
boosted = record {
  split = split;
  lexical_cast = lexical_cast;
  is_address = λ s. not (str_eq s []);
  uuid = λ n. (200 + n) ∷ [];
  split-plain = split-plain;
  split-join = split-join;
  split-ne-nil = split-ne-nil;
  lexical_cast-to_string = lexical_cast-to_string;
}
