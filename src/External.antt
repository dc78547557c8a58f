-- ===== src/External.antt =====
-- What the node takes from code that it does not implement: the JSON library behind json.hpp,
-- Boost, and the operating system's random numbers. The operations are parameters, and the laws
-- are what their documentation says of the values that the node builds and reads.
use nat.Prelude.{
  ℕ, ◌%◌, ◌^◌, ◌<◌, ◌≡◌, ◌≢◌, Bool, true, false, Option, none, some, List, [], ◌∷◌, ◌++◌, Str,
  str_eq, if◌then◌else◌, replicate, to_string, All,
}
use nat.StdMap.{StdMap, find, IsSorted}

-- A field that is written anew: the entry of its key, or one more.
abbrev pub with_field : {J : Type 0} → Str → J → StdMap J → StdMap J
with_field k v [] = (k, v) ∷ []
with_field k v ((j, w) ∷ m) = if str_eq j k then (j, v) ∷ m else (j, w) ∷ with_field k v m

-- `nlohmann::json`. `none` is a thrown exception. Texts are valid UTF-8, so that `dump` throws none.
pub record JsonLib (J : Type 0) : Type 0 where
  -- A null, a string, an unsigned number, an array, an object from its fields.
  pub null : J
  pub str : Str → J
  pub num : ℕ → J
  pub arr : List J → J
  pub obj : List (Str × J) → J
  pub dump : J → Str
  -- `none` where `accept` is false and `parse` throws.
  pub parse : Str → Option J
  pub is_null : J → Bool
  -- `j.find(k)`, with `none` for `end()`.
  pub find_field : Str → J → Option J
  -- `j[k]`, `j[0]`, `j[k] = v` and `j[0] = v`.
  pub at : Str → J → Option J
  pub first : J → Option J
  pub put : Str → J → J → Option J
  pub put_first : J → J → Option J
  -- `get<std::string>()` and `get<unsigned short>()`.
  pub get_string : J → Option Str
  pub get_port : J → Option ℕ
  -- The entries in iteration order; `none` where an iterator has no `key()`.
  pub items : J → Option (List (Str × J))
  -- Whether reading through `j.end()` throws; where it does not, it is undefined.
  pub end_throws : J → Bool
  pub parse-dump : (j : J) → parse (dump j) ≡ some j
  -- The parser takes a zero byte for the end of its input.
  pub parse-padded : (t : Str) (n : ℕ) → parse (t ++ replicate n 0) ≡ parse t
  pub dump-ne-nil : (j : J) → dump j ≢ []
  pub find_field-obj : (k : Str) (fs : List (Str × J)) → find_field k (obj fs) ≡ find k fs
  pub at-obj : (k : Str) (fs : List (Str × J)) (v : J) → find k fs ≡ some v → at k (obj fs) ≡ some v
  pub at-missing : (k : Str) (fs : List (Str × J)) → find k fs ≡ none → at k (obj fs) ≡ some null
  pub at-null : (k : Str) → at k null ≡ some null
  pub first-arr : (j : J) (js : List J) → first (arr (j ∷ js)) ≡ some j
  pub first-null : first null ≡ some null
  pub put-obj :
      (k : Str) (v : J) (fs : List (Str × J)) → put k v (obj fs) ≡ some (obj (with_field k v fs))
  pub put_first-arr : (v j : J) (js : List J) → put_first v (arr (j ∷ js)) ≡ some (arr (v ∷ js))
  pub get_string-str : (s : Str) → get_string (str s) ≡ some s
  pub get_string-null : get_string null ≡ none
  pub get_port-num : (n : ℕ) → get_port (num n) ≡ some (n % 2 ^ 16)
  pub items-obj : (m : StdMap J) → IsSorted m → items (obj m) ≡ some m
  pub end_throws-obj : (fs : List (Str × J)) → end_throws (obj fs) ≡ false
  pub is_null-null : is_null null ≡ true
  pub is_null-obj : (fs : List (Str × J)) → is_null (obj fs) ≡ false

-- No byte of the text is an underscore.
abbrev pub IsPlain : Str → Type 0
IsPlain = All (λ c. c ≢ 95)

-- Boost, and the random UUIDs in the order in which they are drawn.
pub record Boost : Type 0 where
  -- `boost::algorithm::split` at each underscore.
  pub split : Str → List Str
  -- `boost::lexical_cast<unsigned short>`; `none` is `bad_lexical_cast`.
  pub lexical_cast : Str → Option ℕ
  -- Whether `ip::address::from_string` accepts the text.
  pub is_address : Str → Bool
  pub uuid : ℕ → Str
  pub split-plain : (a : Str) → IsPlain a → split a ≡ a ∷ []
  pub split-join : (a r : Str) → IsPlain a → split (a ++ 95 ∷ r) ≡ a ∷ split r
  pub split-ne-nil : (s : Str) → split s ≢ []
  pub lexical_cast-to_string : (n : ℕ) → n < 2 ^ 16 → lexical_cast (to_string n) ≡ some n

pub record Env (J : Type 0) : Type 0 where
  pub json : JsonLib J
  pub open json use *
  pub boost : Boost
  pub open boost use *
