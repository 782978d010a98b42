-- ===== src/Codec/ContentType.antt =====
-- src/content_types.rs: `ContentType`, its codes and the arms of `of`.
use embedded_tls.Prelude.{ℕ, ◌≡◌, refl, List, [], ◌∷◌, Option, some, ◌<◌, ◌^◌, arith}
use embedded_tls.Codec.Table.{find_code, find_code_sound}

pub data ContentType : Type 0 where
  invalid : ContentType
  change_cipher_spec : ContentType
  alert : ContentType
  handshake : ContentType
  application_data : ContentType

unfoldable pub as_u8 : ContentType → ℕ
as_u8 invalid = 0
as_u8 change_cipher_spec = 20
as_u8 alert = 21
as_u8 handshake = 22
as_u8 application_data = 23

unfoldable pub arms : List (ℕ × ContentType)
arms =
    (0, invalid)
    ∷ (20, change_cipher_spec)
    ∷ (21, alert)
    ∷ (22, handshake)
    ∷ (23, application_data)
    ∷ []

-- the arms of `of` in the order of the source
unfoldable pub of_code : ℕ → Option ContentType
unfolding arms find_code
of_code n = find_code arms n

pub of_code-as_u8 : (x : ContentType) → of_code (as_u8 x) ≡ some x
unfolding of_code as_u8
of_code-as_u8 invalid = refl
of_code-as_u8 change_cipher_spec = refl
of_code-as_u8 alert = refl
of_code-as_u8 handshake = refl
of_code-as_u8 application_data = refl

pub as_u8-of_code : (n : ℕ) (x : ContentType) → of_code n ≡ some x → as_u8 x ≡ n
unfolding of_code arms as_u8
as_u8-of_code n x e = find_code_sound as_u8 arms n x (omega arith) e

pub as_u8-lt : (x : ContentType) → as_u8 x < 2 ^ 16
unfolding as_u8
as_u8-lt invalid = omega arith
as_u8-lt change_cipher_spec = omega arith
as_u8-lt alert = omega arith
as_u8-lt handshake = omega arith
as_u8-lt application_data = omega arith
