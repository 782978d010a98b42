-- ===== src/Verifier.antt =====
-- src/config.rs: what a connection relies on of the `CryptoProvider` of its caller and of the
-- `TlsVerifier` that it may have, which keep a state of their own. `has_verifier` tells whether
-- `verifier()` gives one.
use embedded_tls.Prelude.{Bool}
use embedded_tls.Exec.{Exec}
use embedded_tls.Error.{TlsError}
use embedded_tls.Handshake.Certificate.{Certificate}
use embedded_tls.Handshake.CertificateVerify.{CertificateVerify}

pub record Verifier (Transcript : Type 0) : Type 1 where
  pub State : Type 0
  pub has_verifier : State → Bool
  pub verify_certificate : Transcript → Certificate → Exec State TlsError (Unit {0})
  pub verify_signature : CertificateVerify → Exec State TlsError (Unit {0})
