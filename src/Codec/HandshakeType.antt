-- ===== src/Codec/HandshakeType.antt =====
-- src/handshake/mod.rs: `HandshakeType`, its codes and the arms of its parser.
use embedded_tls.Prelude.{ℕ, ◌≡◌, refl, List, [], ◌∷◌, Option, some, ◌<◌, arith}
use embedded_tls.Codec.Table.{find_code, find_code_sound}

pub data HandshakeType : Type 0 where
  client_hello : HandshakeType
  server_hello : HandshakeType
  new_session_ticket : HandshakeType
  end_of_early_data : HandshakeType
  encrypted_extensions : HandshakeType
  certificate : HandshakeType
  certificate_request : HandshakeType
  certificate_verify : HandshakeType
  finished : HandshakeType
  key_update : HandshakeType
  message_hash : HandshakeType

unfoldable pub as_u8 : HandshakeType → ℕ
as_u8 client_hello = 1
as_u8 server_hello = 2
as_u8 new_session_ticket = 4
as_u8 end_of_early_data = 5
as_u8 encrypted_extensions = 8
as_u8 certificate = 11
as_u8 certificate_request = 13
as_u8 certificate_verify = 15
as_u8 finished = 20
as_u8 key_update = 24
as_u8 message_hash = 254

unfoldable pub arms : List (ℕ × HandshakeType)
arms =
    (1, client_hello)
    ∷ (2, server_hello)
    ∷ (4, new_session_ticket)
    ∷ (5, end_of_early_data)
    ∷ (8, encrypted_extensions)
    ∷ (11, certificate)
    ∷ (13, certificate_request)
    ∷ (15, certificate_verify)
    ∷ (20, finished)
    ∷ (24, key_update)
    ∷ (254, message_hash)
    ∷ []

-- the arms of `parse` in the order of the source
unfoldable pub of_code : ℕ → Option HandshakeType
unfolding arms find_code
of_code n = find_code arms n

pub of_code-as_u8 : (x : HandshakeType) → of_code (as_u8 x) ≡ some x
unfolding of_code as_u8
of_code-as_u8 client_hello = refl
of_code-as_u8 server_hello = refl
of_code-as_u8 new_session_ticket = refl
of_code-as_u8 end_of_early_data = refl
of_code-as_u8 encrypted_extensions = refl
of_code-as_u8 certificate = refl
of_code-as_u8 certificate_request = refl
of_code-as_u8 certificate_verify = refl
of_code-as_u8 finished = refl
of_code-as_u8 key_update = refl
of_code-as_u8 message_hash = refl

pub as_u8-of_code : (n : ℕ) (x : HandshakeType) → of_code n ≡ some x → as_u8 x ≡ n
unfolding of_code arms as_u8
as_u8-of_code n x e = find_code_sound as_u8 arms n x (omega arith) e

pub as_u8-lt : (x : HandshakeType) → as_u8 x < 256
unfolding as_u8
as_u8-lt client_hello = omega arith
as_u8-lt server_hello = omega arith
as_u8-lt new_session_ticket = omega arith
as_u8-lt end_of_early_data = omega arith
as_u8-lt encrypted_extensions = omega arith
as_u8-lt certificate = omega arith
as_u8-lt certificate_request = omega arith
as_u8-lt certificate_verify = omega arith
as_u8-lt finished = omega arith
as_u8-lt key_update = omega arith
as_u8-lt message_hash = omega arith
