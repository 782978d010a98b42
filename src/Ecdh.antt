-- ===== src/Ecdh.antt =====
-- What the code relies on of the crate p256: an ephemeral secret, its encoded public key, a public key that may not be a point of
-- the curve, and the bytes of the secret that is shared with the owner of the public key.
use embedded_tls.Prelude.{ℕ, List, Option}

pub record Ecdh : Type 1 where
  pub EphemeralSecret : Type 0
  pub PublicKey : Type 0
  pub from_sec1_bytes : List ℕ → Option PublicKey
  pub diffie_hellman : EphemeralSecret → PublicKey → List ℕ
  pub public_key : EphemeralSecret → List ℕ
