-- ===== src/Codec/ExtensionType.antt =====
-- src/extensions/mod.rs: `ExtensionType`, its codes and the arms of its parser.
use embedded_tls.Prelude.{ℕ, ◌≡◌, refl, List, [], ◌∷◌, Option, some, ◌<◌, ◌^◌, arith}
use embedded_tls.Codec.Table.{find_code, find_code_sound}

pub data ExtensionType : Type 0 where
  server_name : ExtensionType
  max_fragment_length : ExtensionType
  status_request : ExtensionType
  supported_groups : ExtensionType
  signature_algorithms : ExtensionType
  use_srtp : ExtensionType
  heartbeat : ExtensionType
  application_layer_protocol_negotiation : ExtensionType
  signed_certificate_timestamp : ExtensionType
  client_certificate_type : ExtensionType
  server_certificate_type : ExtensionType
  padding : ExtensionType
  compress_certificate : ExtensionType
  pre_shared_key : ExtensionType
  early_data : ExtensionType
  supported_versions : ExtensionType
  cookie : ExtensionType
  psk_key_exchange_modes : ExtensionType
  certificate_authorities : ExtensionType
  oid_filters : ExtensionType
  post_handshake_auth : ExtensionType
  signature_algorithms_cert : ExtensionType
  key_share : ExtensionType

unfoldable pub as_u16 : ExtensionType → ℕ
as_u16 server_name = 0
as_u16 max_fragment_length = 1
as_u16 status_request = 5
as_u16 supported_groups = 10
as_u16 signature_algorithms = 13
as_u16 use_srtp = 14
as_u16 heartbeat = 15
as_u16 application_layer_protocol_negotiation = 16
as_u16 signed_certificate_timestamp = 18
as_u16 client_certificate_type = 19
as_u16 server_certificate_type = 20
as_u16 padding = 21
as_u16 compress_certificate = 27
as_u16 pre_shared_key = 41
as_u16 early_data = 42
as_u16 supported_versions = 43
as_u16 cookie = 44
as_u16 psk_key_exchange_modes = 45
as_u16 certificate_authorities = 47
as_u16 oid_filters = 48
as_u16 post_handshake_auth = 49
as_u16 signature_algorithms_cert = 50
as_u16 key_share = 51

unfoldable pub arms : List (ℕ × ExtensionType)
arms =
    (0, server_name)
    ∷ (1, max_fragment_length)
    ∷ (5, status_request)
    ∷ (10, supported_groups)
    ∷ (13, signature_algorithms)
    ∷ (14, use_srtp)
    ∷ (15, heartbeat)
    ∷ (16, application_layer_protocol_negotiation)
    ∷ (18, signed_certificate_timestamp)
    ∷ (19, client_certificate_type)
    ∷ (20, server_certificate_type)
    ∷ (21, padding)
    ∷ (27, compress_certificate)
    ∷ (41, pre_shared_key)
    ∷ (42, early_data)
    ∷ (43, supported_versions)
    ∷ (44, cookie)
    ∷ (45, psk_key_exchange_modes)
    ∷ (47, certificate_authorities)
    ∷ (48, oid_filters)
    ∷ (49, post_handshake_auth)
    ∷ (50, signature_algorithms_cert)
    ∷ (51, key_share)
    ∷ []

-- the arms of `parse` in the order of the source
unfoldable pub of_code : ℕ → Option ExtensionType
unfolding arms find_code
of_code n = find_code arms n

pub of_code-as_u16 : (x : ExtensionType) → of_code (as_u16 x) ≡ some x
unfolding of_code as_u16
of_code-as_u16 server_name = refl
of_code-as_u16 max_fragment_length = refl
of_code-as_u16 status_request = refl
of_code-as_u16 supported_groups = refl
of_code-as_u16 signature_algorithms = refl
of_code-as_u16 use_srtp = refl
of_code-as_u16 heartbeat = refl
of_code-as_u16 application_layer_protocol_negotiation = refl
of_code-as_u16 signed_certificate_timestamp = refl
of_code-as_u16 client_certificate_type = refl
of_code-as_u16 server_certificate_type = refl
of_code-as_u16 padding = refl
of_code-as_u16 compress_certificate = refl
of_code-as_u16 pre_shared_key = refl
of_code-as_u16 early_data = refl
of_code-as_u16 supported_versions = refl
of_code-as_u16 cookie = refl
of_code-as_u16 psk_key_exchange_modes = refl
of_code-as_u16 certificate_authorities = refl
of_code-as_u16 oid_filters = refl
of_code-as_u16 post_handshake_auth = refl
of_code-as_u16 signature_algorithms_cert = refl
of_code-as_u16 key_share = refl

pub as_u16-of_code : (n : ℕ) (x : ExtensionType) → of_code n ≡ some x → as_u16 x ≡ n
unfolding of_code arms as_u16
as_u16-of_code n x e = find_code_sound as_u16 arms n x (omega arith) e

pub as_u16-lt : (x : ExtensionType) → as_u16 x < 2 ^ 16
unfolding as_u16
as_u16-lt server_name = omega arith
as_u16-lt max_fragment_length = omega arith
as_u16-lt status_request = omega arith
as_u16-lt supported_groups = omega arith
as_u16-lt signature_algorithms = omega arith
as_u16-lt use_srtp = omega arith
as_u16-lt heartbeat = omega arith
as_u16-lt application_layer_protocol_negotiation = omega arith
as_u16-lt signed_certificate_timestamp = omega arith
as_u16-lt client_certificate_type = omega arith
as_u16-lt server_certificate_type = omega arith
as_u16-lt padding = omega arith
as_u16-lt compress_certificate = omega arith
as_u16-lt pre_shared_key = omega arith
as_u16-lt early_data = omega arith
as_u16-lt supported_versions = omega arith
as_u16-lt cookie = omega arith
as_u16-lt psk_key_exchange_modes = omega arith
as_u16-lt certificate_authorities = omega arith
as_u16-lt oid_filters = omega arith
as_u16-lt post_handshake_auth = omega arith
as_u16-lt signature_algorithms_cert = omega arith
as_u16-lt key_share = omega arith
