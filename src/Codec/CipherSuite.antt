-- ===== src/Codec/CipherSuite.antt =====
-- src/cipher_suites.rs: `CipherSuite`, its codes and the arms of its parser.
use embedded_tls.Prelude.{ℕ, ◌≡◌, refl, List, [], ◌∷◌, Option, some, ◌<◌, ◌^◌, arith}
use embedded_tls.Codec.Table.{find_code, find_code_sound}

pub data CipherSuite : Type 0 where
  tls_aes128_gcm_sha256 : CipherSuite
  tls_aes256_gcm_sha384 : CipherSuite
  tls_chacha20_poly1305_sha256 : CipherSuite
  tls_aes128_ccm_sha256 : CipherSuite
  tls_aes128_ccm8_sha256 : CipherSuite
  tls_psk_aes128_gcm_sha256 : CipherSuite

unfoldable pub as_u16 : CipherSuite → ℕ
as_u16 tls_aes128_gcm_sha256 = 0x1301
as_u16 tls_aes256_gcm_sha384 = 0x1302
as_u16 tls_chacha20_poly1305_sha256 = 0x1303
as_u16 tls_aes128_ccm_sha256 = 0x1304
as_u16 tls_aes128_ccm8_sha256 = 0x1305
as_u16 tls_psk_aes128_gcm_sha256 = 0x00a8

unfoldable pub arms : List (ℕ × CipherSuite)
arms =
    (0x1301, tls_aes128_gcm_sha256)
    ∷ (0x1302, tls_aes256_gcm_sha384)
    ∷ (0x1303, tls_chacha20_poly1305_sha256)
    ∷ (0x1304, tls_aes128_ccm_sha256)
    ∷ (0x1305, tls_aes128_ccm8_sha256)
    ∷ (0x00a8, tls_psk_aes128_gcm_sha256)
    ∷ []

-- the arms of `parse` in the order of the source
unfoldable pub of_code : ℕ → Option CipherSuite
unfolding arms find_code
of_code n = find_code arms n

pub of_code-as_u16 : (x : CipherSuite) → of_code (as_u16 x) ≡ some x
unfolding of_code as_u16
of_code-as_u16 tls_aes128_gcm_sha256 = refl
of_code-as_u16 tls_aes256_gcm_sha384 = refl
of_code-as_u16 tls_chacha20_poly1305_sha256 = refl
of_code-as_u16 tls_aes128_ccm_sha256 = refl
of_code-as_u16 tls_aes128_ccm8_sha256 = refl
of_code-as_u16 tls_psk_aes128_gcm_sha256 = refl

pub as_u16-of_code : (n : ℕ) (x : CipherSuite) → of_code n ≡ some x → as_u16 x ≡ n
unfolding of_code arms as_u16
as_u16-of_code n x e = find_code_sound as_u16 arms n x (omega arith) e

pub as_u16-lt : (x : CipherSuite) → as_u16 x < 2 ^ 16
unfolding as_u16
as_u16-lt tls_aes128_gcm_sha256 = omega arith
as_u16-lt tls_aes256_gcm_sha384 = omega arith
as_u16-lt tls_chacha20_poly1305_sha256 = omega arith
as_u16-lt tls_aes128_ccm_sha256 = omega arith
as_u16-lt tls_aes128_ccm8_sha256 = omega arith
as_u16-lt tls_psk_aes128_gcm_sha256 = omega arith
