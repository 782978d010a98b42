-- ===== src/Codec/SignatureScheme.antt =====
-- src/extensions/extension_data/signature_algorithms.rs: `SignatureScheme`, its codes and the arms of its
-- parser.
use embedded_tls.Prelude.{ℕ, ◌≡◌, refl, List, [], ◌∷◌, Option, some, ◌<◌, ◌^◌, arith}
use embedded_tls.Codec.Table.{find_code, find_code_sound}

pub data SignatureScheme : Type 0 where
  rsa_pkcs1_sha256 : SignatureScheme
  rsa_pkcs1_sha384 : SignatureScheme
  rsa_pkcs1_sha512 : SignatureScheme
  ecdsa_secp256r1_sha256 : SignatureScheme
  ecdsa_secp384r1_sha384 : SignatureScheme
  ecdsa_secp521r1_sha512 : SignatureScheme
  rsa_pss_rsae_sha256 : SignatureScheme
  rsa_pss_rsae_sha384 : SignatureScheme
  rsa_pss_rsae_sha512 : SignatureScheme
  ed25519 : SignatureScheme
  ed448 : SignatureScheme
  rsa_pss_pss_sha256 : SignatureScheme
  rsa_pss_pss_sha384 : SignatureScheme
  rsa_pss_pss_sha512 : SignatureScheme
  sha224_ecdsa : SignatureScheme
  sha224_rsa : SignatureScheme
  sha224_dsa : SignatureScheme
  rsa_pkcs1_sha1 : SignatureScheme
  ecdsa_sha1 : SignatureScheme
  sha256_brainpool_p256r1 : SignatureScheme
  sha384_brainpool_p384r1 : SignatureScheme
  sha512_brainpool_p512r1 : SignatureScheme
  ml_dsa44 : SignatureScheme
  ml_dsa65 : SignatureScheme
  ml_dsa87 : SignatureScheme

unfoldable pub as_u16 : SignatureScheme → ℕ
as_u16 rsa_pkcs1_sha256 = 0x0401
as_u16 rsa_pkcs1_sha384 = 0x0501
as_u16 rsa_pkcs1_sha512 = 0x0601
as_u16 ecdsa_secp256r1_sha256 = 0x0403
as_u16 ecdsa_secp384r1_sha384 = 0x0503
as_u16 ecdsa_secp521r1_sha512 = 0x0603
as_u16 rsa_pss_rsae_sha256 = 0x0804
as_u16 rsa_pss_rsae_sha384 = 0x0805
as_u16 rsa_pss_rsae_sha512 = 0x0806
as_u16 ed25519 = 0x0807
as_u16 ed448 = 0x0808
as_u16 rsa_pss_pss_sha256 = 0x0809
as_u16 rsa_pss_pss_sha384 = 0x080a
as_u16 rsa_pss_pss_sha512 = 0x080b
as_u16 sha224_ecdsa = 0x0303
as_u16 sha224_rsa = 0x0301
as_u16 sha224_dsa = 0x0302
as_u16 rsa_pkcs1_sha1 = 0x0201
as_u16 ecdsa_sha1 = 0x0203
as_u16 sha256_brainpool_p256r1 = 0x081a
as_u16 sha384_brainpool_p384r1 = 0x081b
as_u16 sha512_brainpool_p512r1 = 0x081c
as_u16 ml_dsa44 = 0x0904
as_u16 ml_dsa65 = 0x0905
as_u16 ml_dsa87 = 0x0906

unfoldable pub arms : List (ℕ × SignatureScheme)
arms =
    (0x0401, rsa_pkcs1_sha256)
    ∷ (0x0501, rsa_pkcs1_sha384)
    ∷ (0x0601, rsa_pkcs1_sha512)
    ∷ (0x0403, ecdsa_secp256r1_sha256)
    ∷ (0x0503, ecdsa_secp384r1_sha384)
    ∷ (0x0603, ecdsa_secp521r1_sha512)
    ∷ (0x0804, rsa_pss_rsae_sha256)
    ∷ (0x0805, rsa_pss_rsae_sha384)
    ∷ (0x0806, rsa_pss_rsae_sha512)
    ∷ (0x0807, ed25519)
    ∷ (0x0808, ed448)
    ∷ (0x0809, rsa_pss_pss_sha256)
    ∷ (0x080a, rsa_pss_pss_sha384)
    ∷ (0x080b, rsa_pss_pss_sha512)
    ∷ (0x0303, sha224_ecdsa)
    ∷ (0x0301, sha224_rsa)
    ∷ (0x0302, sha224_dsa)
    ∷ (0x0201, rsa_pkcs1_sha1)
    ∷ (0x0203, ecdsa_sha1)
    ∷ (0x081a, sha256_brainpool_p256r1)
    ∷ (0x081b, sha384_brainpool_p384r1)
    ∷ (0x081c, sha512_brainpool_p512r1)
    ∷ (0x0904, ml_dsa44)
    ∷ (0x0905, ml_dsa65)
    ∷ (0x0906, ml_dsa87)
    ∷ []

-- the arms of `parse` in the order of the source
unfoldable pub of_code : ℕ → Option SignatureScheme
unfolding arms find_code
of_code n = find_code arms n

pub of_code-as_u16 : (x : SignatureScheme) → of_code (as_u16 x) ≡ some x
unfolding of_code as_u16
of_code-as_u16 rsa_pkcs1_sha256 = refl
of_code-as_u16 rsa_pkcs1_sha384 = refl
of_code-as_u16 rsa_pkcs1_sha512 = refl
of_code-as_u16 ecdsa_secp256r1_sha256 = refl
of_code-as_u16 ecdsa_secp384r1_sha384 = refl
of_code-as_u16 ecdsa_secp521r1_sha512 = refl
of_code-as_u16 rsa_pss_rsae_sha256 = refl
of_code-as_u16 rsa_pss_rsae_sha384 = refl
of_code-as_u16 rsa_pss_rsae_sha512 = refl
of_code-as_u16 ed25519 = refl
of_code-as_u16 ed448 = refl
of_code-as_u16 rsa_pss_pss_sha256 = refl
of_code-as_u16 rsa_pss_pss_sha384 = refl
of_code-as_u16 rsa_pss_pss_sha512 = refl
of_code-as_u16 sha224_ecdsa = refl
of_code-as_u16 sha224_rsa = refl
of_code-as_u16 sha224_dsa = refl
of_code-as_u16 rsa_pkcs1_sha1 = refl
of_code-as_u16 ecdsa_sha1 = refl
of_code-as_u16 sha256_brainpool_p256r1 = refl
of_code-as_u16 sha384_brainpool_p384r1 = refl
of_code-as_u16 sha512_brainpool_p512r1 = refl
of_code-as_u16 ml_dsa44 = refl
of_code-as_u16 ml_dsa65 = refl
of_code-as_u16 ml_dsa87 = refl

pub as_u16-of_code : (n : ℕ) (x : SignatureScheme) → of_code n ≡ some x → as_u16 x ≡ n
unfolding of_code arms as_u16
as_u16-of_code n x e = find_code_sound as_u16 arms n x (omega arith) e

pub as_u16-lt : (x : SignatureScheme) → as_u16 x < 2 ^ 16
unfolding as_u16
as_u16-lt rsa_pkcs1_sha256 = omega arith
as_u16-lt rsa_pkcs1_sha384 = omega arith
as_u16-lt rsa_pkcs1_sha512 = omega arith
as_u16-lt ecdsa_secp256r1_sha256 = omega arith
as_u16-lt ecdsa_secp384r1_sha384 = omega arith
as_u16-lt ecdsa_secp521r1_sha512 = omega arith
as_u16-lt rsa_pss_rsae_sha256 = omega arith
as_u16-lt rsa_pss_rsae_sha384 = omega arith
as_u16-lt rsa_pss_rsae_sha512 = omega arith
as_u16-lt ed25519 = omega arith
as_u16-lt ed448 = omega arith
as_u16-lt rsa_pss_pss_sha256 = omega arith
as_u16-lt rsa_pss_pss_sha384 = omega arith
as_u16-lt rsa_pss_pss_sha512 = omega arith
as_u16-lt sha224_ecdsa = omega arith
as_u16-lt sha224_rsa = omega arith
as_u16-lt sha224_dsa = omega arith
as_u16-lt rsa_pkcs1_sha1 = omega arith
as_u16-lt ecdsa_sha1 = omega arith
as_u16-lt sha256_brainpool_p256r1 = omega arith
as_u16-lt sha384_brainpool_p384r1 = omega arith
as_u16-lt sha512_brainpool_p512r1 = omega arith
as_u16-lt ml_dsa44 = omega arith
as_u16-lt ml_dsa65 = omega arith
as_u16-lt ml_dsa87 = omega arith
