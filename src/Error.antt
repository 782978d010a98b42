-- ===== src/Error.antt =====
-- src/lib.rs `TlsError`, src/parse_buffer.rs `ParseError`, and the alert levels and descriptions of
-- src/alert.rs that a `TlsError` carries.
use embedded_tls.Prelude.{ℕ}

pub data ParseError : Type 0 where
  insufficient_bytes : ParseError
  insufficient_space : ParseError
  invalid_data : ParseError

pub data AlertLevel : Type 0 where
  warning : AlertLevel
  fatal : AlertLevel

pub data AlertDescription : Type 0 where
  close_notify unexpected_message bad_record_mac record_overflow : AlertDescription
  handshake_failure bad_certificate unsupported_certificate : AlertDescription
  certificate_revoked certificate_expired certificate_unknown : AlertDescription
  illegal_parameter unknown_ca access_denied decode_error decrypt_error : AlertDescription
  protocol_version insufficient_security internal_error : AlertDescription
  inappropriate_fallback user_canceled missing_extension : AlertDescription
  unsupported_extension unrecognized_name bad_certificate_status_response : AlertDescription
  unknown_psk_identity certificate_required no_application_protocol : AlertDescription

-- `io` carries the kind of the transport's error, which the library only passes on: a number that
-- stands for it.
pub data TlsError : Type 0 where
  connection_closed : TlsError
  unimplemented : TlsError
  missing_handshake : TlsError
  handshake_aborted : AlertLevel → AlertDescription → TlsError
  abort_handshake : AlertLevel → AlertDescription → TlsError
  io_error : TlsError
  internal_error : TlsError
  invalid_record : TlsError
  unknown_content_type : TlsError
  invalid_nonce_length : TlsError
  invalid_ticket_length : TlsError
  unknown_extension_type : TlsError
  insufficient_space : TlsError
  invalid_handshake : TlsError
  invalid_cipher_suite : TlsError
  invalid_signature_scheme : TlsError
  invalid_signature : TlsError
  invalid_extensions_length : TlsError
  invalid_session_id_length : TlsError
  invalid_supported_versions : TlsError
  invalid_application_data : TlsError
  invalid_key_share : TlsError
  invalid_certificate : TlsError
  invalid_certificate_entry : TlsError
  invalid_certificate_request : TlsError
  invalid_private_key : TlsError
  unable_to_initialize_crypto_engine : TlsError
  parse_error : ParseError → TlsError
  out_of_memory : TlsError
  crypto_error : TlsError
  encode_error : TlsError
  decode_error : TlsError
  io : ℕ → TlsError
