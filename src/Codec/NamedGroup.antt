-- ===== src/Codec/NamedGroup.antt =====
-- src/extensions/extension_data/supported_groups.rs: `NamedGroup`, its codes and the arms of its parser.
use embedded_tls.Prelude.{ℕ, ◌≡◌, refl, List, [], ◌∷◌, Option, some, ◌<◌, ◌^◌, arith}
use embedded_tls.Codec.Table.{find_code, find_code_sound}

pub data NamedGroup : Type 0 where
  secp256r1 : NamedGroup
  secp384r1 : NamedGroup
  secp521r1 : NamedGroup
  x25519 : NamedGroup
  x448 : NamedGroup
  ffdhe2048 : NamedGroup
  ffdhe3072 : NamedGroup
  ffdhe4096 : NamedGroup
  ffdhe6144 : NamedGroup
  ffdhe8192 : NamedGroup
  x25519_mlkem768 : NamedGroup
  secp256r1_mlkem768 : NamedGroup
  secp384r1_mlkem1024 : NamedGroup

unfoldable pub as_u16 : NamedGroup → ℕ
as_u16 secp256r1 = 0x0017
as_u16 secp384r1 = 0x0018
as_u16 secp521r1 = 0x0019
as_u16 x25519 = 0x001d
as_u16 x448 = 0x001e
as_u16 ffdhe2048 = 0x0100
as_u16 ffdhe3072 = 0x0101
as_u16 ffdhe4096 = 0x0102
as_u16 ffdhe6144 = 0x0103
as_u16 ffdhe8192 = 0x0104
as_u16 x25519_mlkem768 = 0x11ec
as_u16 secp256r1_mlkem768 = 0x11eb
as_u16 secp384r1_mlkem1024 = 0x11ed

unfoldable pub arms : List (ℕ × NamedGroup)
arms =
    (0x0017, secp256r1)
    ∷ (0x0018, secp384r1)
    ∷ (0x0019, secp521r1)
    ∷ (0x001d, x25519)
    ∷ (0x001e, x448)
    ∷ (0x0100, ffdhe2048)
    ∷ (0x0101, ffdhe3072)
    ∷ (0x0102, ffdhe4096)
    ∷ (0x0103, ffdhe6144)
    ∷ (0x0104, ffdhe8192)
    ∷ (0x11eb, secp256r1_mlkem768)
    ∷ (0x11ec, x25519_mlkem768)
    ∷ (0x11ed, secp384r1_mlkem1024)
    ∷ []

-- the arms of `parse` in the order of the source
unfoldable pub of_code : ℕ → Option NamedGroup
unfolding arms find_code
of_code n = find_code arms n

pub of_code-as_u16 : (x : NamedGroup) → of_code (as_u16 x) ≡ some x
unfolding of_code as_u16
of_code-as_u16 secp256r1 = refl
of_code-as_u16 secp384r1 = refl
of_code-as_u16 secp521r1 = refl
of_code-as_u16 x25519 = refl
of_code-as_u16 x448 = refl
of_code-as_u16 ffdhe2048 = refl
of_code-as_u16 ffdhe3072 = refl
of_code-as_u16 ffdhe4096 = refl
of_code-as_u16 ffdhe6144 = refl
of_code-as_u16 ffdhe8192 = refl
of_code-as_u16 x25519_mlkem768 = refl
of_code-as_u16 secp256r1_mlkem768 = refl
of_code-as_u16 secp384r1_mlkem1024 = refl

pub as_u16-of_code : (n : ℕ) (x : NamedGroup) → of_code n ≡ some x → as_u16 x ≡ n
unfolding of_code arms as_u16
as_u16-of_code n x e = find_code_sound as_u16 arms n x (omega arith) e

pub as_u16-lt : (x : NamedGroup) → as_u16 x < 2 ^ 16
unfolding as_u16
as_u16-lt secp256r1 = omega arith
as_u16-lt secp384r1 = omega arith
as_u16-lt secp521r1 = omega arith
as_u16-lt x25519 = omega arith
as_u16-lt x448 = omega arith
as_u16-lt ffdhe2048 = omega arith
as_u16-lt ffdhe3072 = omega arith
as_u16-lt ffdhe4096 = omega arith
as_u16-lt ffdhe6144 = omega arith
as_u16-lt ffdhe8192 = omega arith
as_u16-lt x25519_mlkem768 = omega arith
as_u16-lt secp256r1_mlkem768 = omega arith
as_u16-lt secp384r1_mlkem1024 = omega arith
