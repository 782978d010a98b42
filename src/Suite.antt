-- ===== src/Suite.antt =====
-- src/config.rs: `TlsCipherSuite`, the crates' types that a cipher suite is made of. `key_len` bytes of key
-- and twelve of IV are within what one `expand` gives.
use embedded_tls.Prelude.{ℕ, ◌*◌, ◌≤◌}
use embedded_tls.Digest.{Digest}
use embedded_tls.Hkdf.{Hkdf}
use embedded_tls.Aead.{Aead}

pub record Suite : Type 1 where
  pub code_point : ℕ
  pub digest : Digest
  pub hkdf : Hkdf digest.output_size
  pub aead : Aead
  pub key_len : ℕ
  pub key_len_fits : key_len ≤ 255 * digest.output_size
  pub iv_len_fits : 12 ≤ 255 * digest.output_size
