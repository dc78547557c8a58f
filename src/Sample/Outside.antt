-- ===== src/Sample/Outside.antt =====
-- A network, a cipher and a command line that meet what the program relies on, and run.
use nat.Prelude.{◌+◌, ◌-◌, ◌%◌, codes, some, List, [], ◌∷◌, ◌++◌, ◌≡◌, ◌≢◌}
use nat.Net.{Net, Endpoint}
use nat.Client.Encrypt.{Aes}

abbrev pub everywhere : List Endpoint
everywhere = (codes "9.9.9.9", 80) ∷ []

pub not_empty : some everywhere ≢ some []
not_empty e = cc

abbrev pub own_end : Endpoint
own_end = (codes "10.0.0.5", 4000)

pub has_text : (own : Endpoint) → some own_end ≡ some own → own.0 ≢ []
has_text own e n = cc

-- Every host has one address.
abbrev pub network : Net
network = record {
  resolve = λ host. some everywhere;
  connect = λ endpoint. some own_end;
  resolve-ne-nil = λ host. not_empty;
  connect-ne-nil = λ endpoint. has_text;
}

-- The key in front of the data, which shows what was called with what.
abbrev pub cipher : Aes
cipher = record {
  key_from_string = λ s. s;
  get_padded_encrypted_size = λ n. n + 16 - n % 16;
  encrypt_cbc = λ content key iv size pads. some (key ++ content);
}
