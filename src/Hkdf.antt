-- ===== src/Hkdf.antt =====
-- What the code relies on of the crates hkdf and hmac, for a hash of `hash_len` bytes. A key derivation
-- `Hkdf` is known by its pseudorandom key. `expand` fails where more than 255 hashes are asked for,
-- `from_prk` where the key is shorter than a hash, and `new_from_slice` of an HMAC takes any key.
use embedded_tls.Prelude.{ℕ, ◌*◌, ◌≤◌, ◌≡◌, ◌↔◌, Bool, true, List, Option, some, length}

pub record Hkdf (hash_len : ℕ) : Type 0 where
  pub extract : (salt ikm : List ℕ) → List ℕ
  pub length-extract : (salt ikm : List ℕ) → length (extract salt ikm) ≡ hash_len
  pub okm : (prk info : List ℕ) (n : ℕ) → List ℕ
  pub length-okm : (prk info : List ℕ) (n : ℕ) → length (okm prk info n) ≡ n
  pub expand : (prk info : List ℕ) (n : ℕ) → Option (List ℕ)
  pub expand_ok :
      (prk info : List ℕ) (n : ℕ) → n ≤ 255 * hash_len → expand prk info n ≡ some (okm prk info n)
  pub from_prk : List ℕ → Option (List ℕ)
  pub from_prk_ok : (prk : List ℕ) → hash_len ≤ length prk → from_prk prk ≡ some prk
  pub tag : (key message : List ℕ) → List ℕ
  pub mac : (key message : List ℕ) → Option (List ℕ)
  pub mac_ok : (key message : List ℕ) → mac key message ≡ some (tag key message)
  pub verify : (key message code : List ℕ) → Option Bool
  pub verify_ok :
      (key message code : List ℕ) → (verify key message code ≡ some true) ↔ (code ≡ tag key message)
