-- ===== src/Codec/AlertCodes.antt =====
-- src/alert.rs: the codes of alert levels and descriptions, and the arms of their `of`.
use embedded_tls.Prelude.{ℕ, ◌≡◌, refl, List, [], ◌∷◌, Option, some, arith}
use embedded_tls.Error.{AlertLevel, warning, fatal, AlertDescription}
use embedded_tls.Error.{
  close_notify, unexpected_message, bad_record_mac, record_overflow, handshake_failure,
  bad_certificate, unsupported_certificate, certificate_revoked, certificate_expired,
  certificate_unknown, illegal_parameter, unknown_ca, access_denied, decode_error, decrypt_error,
  protocol_version, insufficient_security, internal_error, inappropriate_fallback, user_canceled,
  missing_extension, unsupported_extension, unrecognized_name, bad_certificate_status_response,
  unknown_psk_identity, certificate_required, no_application_protocol,
}
use embedded_tls.Codec.Table.{find_code, find_code_sound}

unfoldable pub level_code : AlertLevel → ℕ
level_code warning = 1
level_code fatal = 2

unfoldable pub level_of : ℕ → Option AlertLevel
unfolding find_code
level_of = find_code ((1, warning) ∷ (2, fatal) ∷ [])

unfoldable pub description_code : AlertDescription → ℕ
description_code close_notify = 0
description_code unexpected_message = 10
description_code bad_record_mac = 20
description_code record_overflow = 22
description_code handshake_failure = 40
description_code bad_certificate = 42
description_code unsupported_certificate = 43
description_code certificate_revoked = 44
description_code certificate_expired = 45
description_code certificate_unknown = 46
description_code illegal_parameter = 47
description_code unknown_ca = 48
description_code access_denied = 49
description_code decode_error = 50
description_code decrypt_error = 51
description_code protocol_version = 70
description_code insufficient_security = 71
description_code internal_error = 80
description_code inappropriate_fallback = 86
description_code user_canceled = 90
description_code missing_extension = 109
description_code unsupported_extension = 110
description_code unrecognized_name = 112
description_code bad_certificate_status_response = 113
description_code unknown_psk_identity = 115
description_code certificate_required = 116
description_code no_application_protocol = 120

unfoldable pub description_arms : List (ℕ × AlertDescription)
description_arms =
    (0, close_notify)
    ∷ (10, unexpected_message)
    ∷ (20, bad_record_mac)
    ∷ (22, record_overflow)
    ∷ (40, handshake_failure)
    ∷ (42, bad_certificate)
    ∷ (43, unsupported_certificate)
    ∷ (44, certificate_revoked)
    ∷ (45, certificate_expired)
    ∷ (46, certificate_unknown)
    ∷ (47, illegal_parameter)
    ∷ (48, unknown_ca)
    ∷ (49, access_denied)
    ∷ (50, decode_error)
    ∷ (51, decrypt_error)
    ∷ (70, protocol_version)
    ∷ (71, insufficient_security)
    ∷ (80, internal_error)
    ∷ (86, inappropriate_fallback)
    ∷ (90, user_canceled)
    ∷ (109, missing_extension)
    ∷ (110, unsupported_extension)
    ∷ (112, unrecognized_name)
    ∷ (113, bad_certificate_status_response)
    ∷ (115, unknown_psk_identity)
    ∷ (116, certificate_required)
    ∷ (120, no_application_protocol)
    ∷ []

unfoldable pub description_of : ℕ → Option AlertDescription
unfolding description_arms find_code
description_of n = find_code description_arms n

pub level_of-level_code : (l : AlertLevel) → level_of (level_code l) ≡ some l
unfolding level_of level_code
level_of-level_code warning = refl
level_of-level_code fatal = refl

pub level_code-level_of : (n : ℕ) (l : AlertLevel) → level_of n ≡ some l → level_code l ≡ n
unfolding level_of level_code
level_code-level_of n l e =
    find_code_sound level_code ((1, warning) ∷ (2, fatal) ∷ []) n l (omega arith) e

pub description_of-description_code :
    (d : AlertDescription) → description_of (description_code d) ≡ some d
unfolding description_of description_code
description_of-description_code close_notify = refl
description_of-description_code unexpected_message = refl
description_of-description_code bad_record_mac = refl
description_of-description_code record_overflow = refl
description_of-description_code handshake_failure = refl
description_of-description_code bad_certificate = refl
description_of-description_code unsupported_certificate = refl
description_of-description_code certificate_revoked = refl
description_of-description_code certificate_expired = refl
description_of-description_code certificate_unknown = refl
description_of-description_code illegal_parameter = refl
description_of-description_code unknown_ca = refl
description_of-description_code access_denied = refl
description_of-description_code decode_error = refl
description_of-description_code decrypt_error = refl
description_of-description_code protocol_version = refl
description_of-description_code insufficient_security = refl
description_of-description_code internal_error = refl
description_of-description_code inappropriate_fallback = refl
description_of-description_code user_canceled = refl
description_of-description_code missing_extension = refl
description_of-description_code unsupported_extension = refl
description_of-description_code unrecognized_name = refl
description_of-description_code bad_certificate_status_response = refl
description_of-description_code unknown_psk_identity = refl
description_of-description_code certificate_required = refl
description_of-description_code no_application_protocol = refl

pub description_code-description_of :
    (n : ℕ) (d : AlertDescription) → description_of n ≡ some d → description_code d ≡ n
unfolding description_of description_arms description_code
description_code-description_of n d e =
    find_code_sound description_code description_arms n d (omega arith) e
