-- ===== src/Server/CheckKey.antt =====
-- The keys of the time map, "filtering_" and what follows: what `threadhandle` gets back from one.
use nat.Prelude.{
  ℕ, Str, codes, to_string, IsDigits, to_string-IsDigits, some, List, [], ◌∷◌, ◌≡◌, ◌≢◌, refl, ap,
  ◌∙◌, arith, get_elem?, ◌≤◌, ◌<◌, stoi-to_string, stoi-to_string-overflow, int_max, false,
}
use nat.External.{Env, IsPlain}
use nat.Effect.{fails, exception, pure, ◌>>=◌, if◌run◌else◌}
use nat.Server.Timer.{is_late, expire_check, check_entry}
use nat.Server.State.{Server}
use nat.Server.Detect.{check_key}

IsDigits-IsPlain : (s : Str) → IsDigits s → IsPlain s
IsDigits-IsPlain [] h = tt
IsDigits-IsPlain (c ∷ cs) h = (omega arith, IsDigits-IsPlain cs h.2)

pub to_string-IsPlain : (n : ℕ) → IsPlain (to_string n)
to_string-IsPlain n = IsDigits-IsPlain (to_string n) (to_string-IsDigits n)

filtering-IsPlain : IsPlain (codes "filtering")
filtering-IsPlain = omega arith

module _ {J : Type 0} (E : Env J) (now : ℕ) (ip : Str) (port : ℕ) (node : Str)
    (plain : IsPlain ip) where
  pub split-check_key :
      E.split (check_key now ip port node)
      ≡ codes "filtering" ∷ to_string now ∷ ip ∷ to_string port ∷ E.split node
  unfolding check_key
  split-check_key =
      E.split-join (codes "filtering") _ filtering-IsPlain
      ∙ ap (◌∷◌ (codes "filtering")) (
          E.split-join (to_string now) _ (to_string-IsPlain now)
          ∙ ap (◌∷◌ (to_string now)) (
              E.split-join ip _ plain
              ∙ ap (◌∷◌ ip) (E.split-join (to_string port) node (to_string-IsPlain port))))

-- The first part of a split, which is never missing.
pub head_of : (parts : List Str) → parts ≢ [] → (p : Str) × (get_elem? parts 0 ≡ some p)
head_of [] h = absurd (h refl)
head_of (p ∷ ps) h = (p, refl)

module _ {J : Type 0} (E : Env J) where
  -- A look at the entry of a probe reads its time and its node, up to the node's first underscore.
  pub check_entry-check_key :
      (later : ℕ) (id : Str) (now : ℕ) (ip : Str) (port : ℕ) (node host : Str)
      → now ≤ int_max
      → IsPlain ip
      → get_elem? (E.split node) 0 ≡ some host
      → (s : Server J)
      → check_entry E later id (check_key now ip port node) s
        ≡ (if is_late later (false, now)
              run expire_check E id (codes "filtering") host
              else pure false)
            s
  unfolding check_entry ◌>>=◌
  check_entry-check_key later id now ip port node host early plain h s =
      rw (split-check_key E now ip port node plain, h) (rw (stoi-to_string now early))

  -- The time of a probe that does not fit an `int` is read by `std::stoi` all the same, which throws.
  pub check_entry-overflow :
      (later : ℕ) (id : Str) (now : ℕ) (ip : Str) (port : ℕ) (node : Str)
      → int_max < now
      → IsPlain ip
      → (s : Server J) → check_entry E later id (check_key now ip port node) s ≡ fails exception s
  unfolding check_entry ◌>>=◌
  check_entry-overflow later id now ip port node big plain s =
      rw (split-check_key E now ip port node plain) (rw (stoi-to_string-overflow now big) refl)
