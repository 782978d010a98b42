-- ===== src/Pki/CertVerifier.antt =====
-- src/pki.rs: `CertVerifier`, which keeps the transcript and the certificate of a server between the
-- two messages that it checks. It is an action on the verifier and on the clock.
pub mod Verified
use embedded_tls.Prelude.{ℕ, Option, none, some, List, [], ◌∷◌, if◌then◌else◌}
use embedded_tls.Exec.{Result, Exec, ok, outcome, pure, raise, gets, unwrap, on_right, ◌>>=◌, ◌>>◌}
use embedded_tls.Error.{TlsError, invalid_certificate, insufficient_space, encode_error}
use embedded_tls.Heapless.{Heapless}
use embedded_tls.Digest.{Digest}
use embedded_tls.KeySchedule.Secrets.{require}
use embedded_tls.Handshake.Certificate.{Certificate, CertificateEntry}
use embedded_tls.Handshake.Certificate.Owned.{OwnedCertificate, to_owned, from_owned}
use embedded_tls.Handshake.CertificateVerify.{CertificateVerify}
use embedded_tls.Pki.Hostname.{CertificateNames, tls_hostname_match}
use embedded_tls.Pki.Chain.{walk_chain}

pub record CertVerifier (Transcript : Type 0) : Type 0 where
  pub ca : CertificateEntry
  pub host : Option (List ℕ)
  pub certificate_transcript : Option Transcript
  pub certificate : Option OwnedCertificate

pub new : {Transcript : Type 0} → CertificateEntry → CertVerifier Transcript
new ca = record { ca = ca; host = none; certificate_transcript = none; certificate = none }

-- `b"TLS 1.3, server CertificateVerify\x00"`
pub ctx_str : List ℕ
ctx_str =
    84 ∷ 76 ∷ 83 ∷ 32 ∷ 49 ∷ 46 ∷ 51 ∷ 44 ∷ 32 ∷ 115 ∷ 101 ∷ 114 ∷ 118 ∷ 101 ∷ 114 ∷ 32 ∷ 67 ∷ 101
    ∷ 114 ∷ 116 ∷ 105 ∷ 102 ∷ 105 ∷ 99 ∷ 97 ∷ 116 ∷ 101 ∷ 86 ∷ 101 ∷ 114 ∷ 105 ∷ 102 ∷ 121 ∷ 0 ∷ []

module _ ⦃h : Heapless⦄ (d : Digest) (S : Type 0) where
  abbrev pub Verifying : Type 0 → Type 0
  Verifying = Exec (CertVerifier d.State × S) TlsError

  abbrev set : (CertVerifier d.State → CertVerifier d.State) → Verifying (Unit {0})
  set f (v, s) = (ok tt, (f v, s))

  pub set_hostname_verification : List ℕ → Verifying (Unit {0})
  set_hostname_verification hostname = do
    host ← require insufficient_space (h.extend ℕ 64 [] hostname)
    set (λ v. record v { host = some host })

  module _ (now : S → Option ℕ × S)
      (check : CertificateEntry → CertificateEntry → Option ℕ → Result TlsError CertificateNames)
      (cert_size : ℕ) where
    -- The certificate and the transcript are kept only behind every check.
    unfoldable pub keep_verified : d.State → Certificate → CertificateNames → Verifying (Unit {0})
    keep_verified transcript cert names = do
      host ← gets (λ s. s.0.host)
      if tls_hostname_match names host then pure tt else raise invalid_certificate
      kept ← outcome (to_owned cert_size cert)
      set (λ v. record v { certificate = some kept; certificate_transcript = some transcript })

    unfoldable pub verify_certificate : d.State → Certificate → Verifying (Unit {0})
    verify_certificate transcript cert = do
      ca ← gets (λ s. s.0.ca)
      names ← on_right (walk_chain now check ca cert.entries)
      keep_verified transcript cert names

  module _
      (check_signature : List ℕ
        → Certificate
        → CertificateVerify
        → Result TlsError (Unit {0})) where
    -- `self.certificate_transcript.take()`
    pub take_transcript : Verifying (Option d.State)
    take_transcript (v, s) =
        (ok v.certificate_transcript, (record v { certificate_transcript = none }, s))

    pub signed_message : d.State → Verifying (List ℕ)
    signed_message handshake_hash = do
      padding ← require encode_error (h.resize ℕ 146 [] 64 0x20)
      msg ← require encode_error (h.extend ℕ 146 padding ctx_str)
      require encode_error (h.extend ℕ 146 msg (d.finalize handshake_hash))

    -- What is behind the `take`.
    pub verify_with : d.State → CertificateVerify → Verifying (Unit {0})
    verify_with handshake_hash verify = do
      msg ← signed_message handshake_hash
      kept ← gets (λ s. s.0.certificate)
      owned ← unwrap kept
      certificate ← outcome (from_owned owned)
      outcome (check_signature msg certificate verify)

    pub verify_signature : CertificateVerify → Verifying (Unit {0})
    verify_signature verify = do
      transcript ← take_transcript
      handshake_hash ← unwrap transcript
      verify_with handshake_hash verify
