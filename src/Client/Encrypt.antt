-- ===== src/Client/Encrypt.antt =====
-- `client::encrypto` (client.cpp), on the copy of plusaes, which is a parameter. Bytes are numbers.
use nat.Prelude.{ℕ, Str, codes, Option, none, some, Bool, true, List, [], ◌∷◌, length, replicate}

-- The calls of plusaes that the code makes; nothing is assumed of them.
pub record Aes : Type 0 where
  -- `key_from_string` of a text of 16 characters.
  pub key_from_string : Str → List ℕ
  pub get_padded_encrypted_size : ℕ → ℕ
  -- Data, key, initialisation vector, the size of the output buffer, and whether to pad. `none` is
  -- an error code, and leaves the buffer as it was.
  pub encrypt_cbc : List ℕ → List ℕ → List ℕ → ℕ → Bool → Option (List ℕ)

abbrev pub initial_vector : List ℕ
initial_vector = 0 ∷ 1 ∷ 2 ∷ 3 ∷ 4 ∷ 5 ∷ 6 ∷ 7 ∷ 8 ∷ 9 ∷ 10 ∷ 11 ∷ 12 ∷ 13 ∷ 14 ∷ 15 ∷ []

-- A buffer of zeros after a call that wrote it, or failed.
abbrev pub buffer_after : Option (List ℕ) → ℕ → List ℕ
buffer_after none n = replicate n 0
buffer_after (some out) n = out

module _ (A : Aes) where
  abbrev pub key : List ℕ
  key = A.key_from_string (codes "helloharryhannah")

  -- The buffer holds zeros until `encrypt_cbc` writes it; what that returns is ignored.
  unfoldable pub encrypto : Str → List ℕ
  encrypto msg =
      let encrypted_size = A.get_padded_encrypted_size (length msg) in
      buffer_after (A.encrypt_cbc msg key initial_vector encrypted_size true) encrypted_size
