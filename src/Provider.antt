-- ===== src/Provider.antt =====
-- src/config.rs: `CryptoProvider`, what a connection relies on of its caller: random bytes and secrets, a
-- verifier of the server, a certificate of the client and a key that signs for it. It keeps a state of
-- its own. A certificate comes as the entry that src/handshake/certificate.rs makes of it.
use embedded_tls.Prelude.{ℕ, List, Option}
use embedded_tls.Exec.{Exec}
use embedded_tls.Error.{TlsError}
use embedded_tls.Suite.{Suite}
use embedded_tls.Ecdh.{Ecdh}
use embedded_tls.Verifier.{Verifier}
use embedded_tls.Codec.SignatureScheme.{SignatureScheme}
use embedded_tls.Handshake.Certificate.{CertificateEntry}

pub record Provider (c : Suite) (e : Ecdh) : Type 1 where
  pub verifier : Verifier c.digest.State
  pub random_bytes : ℕ → verifier.State → List ℕ × verifier.State
  pub ephemeral_secret : verifier.State → e.EphemeralSecret × verifier.State
  pub client_cert : verifier.State → Option CertificateEntry × verifier.State
  pub signer : Exec verifier.State TlsError ((List ℕ → List ℕ) × SignatureScheme)
  pub set_hostname_verification : List ℕ → Exec verifier.State TlsError (Unit {0})
