-- ===== src/Extensions/CertificateRequest.antt =====
-- src/extensions/messages.rs: `CertificateRequestExtension`, the extensions that this message of the server may carry.
use embedded_tls.Prelude.{ℕ, List, Option, none, some}
use embedded_tls.Exec.{pure, ◌>>=◌}
use embedded_tls.Heapless.{Heapless}
use embedded_tls.Parse.{Read}
use embedded_tls.Parse.Total.{Total-any, Total-then, Total-pure}
use embedded_tls.Codec.ExtensionType.{ExtensionType}
use embedded_tls.Codec.SignatureScheme.{SignatureScheme}
use embedded_tls.Codec.Vectors.{read_signature_algorithms}
use embedded_tls.Codec.Vectors.Bounds.{Total-read_signature_algorithms}
use embedded_tls.Extensions.Data.{read_unimplemented, Total-read_unimplemented}
use embedded_tls.Extensions.Total.{TotalArm}

pub data CertificateRequestExtension : Type 0 where
  status_request : List ℕ → CertificateRequestExtension
  signature_algorithms : List SignatureScheme → CertificateRequestExtension
  signed_certificate_timestamp : List ℕ → CertificateRequestExtension
  certificate_authorities : List ℕ → CertificateRequestExtension
  oid_filters : List ℕ → CertificateRequestExtension
  signature_algorithms_cert : List ℕ → CertificateRequestExtension
  compress_certificate : List ℕ → CertificateRequestExtension

module _ ⦃h : Heapless⦄ where
  pub arms : ExtensionType → Option (Read CertificateRequestExtension)
  arms ExtensionType.status_request = some (read_unimplemented >>= λ x. pure (status_request x))
  arms ExtensionType.signature_algorithms =
      some (read_signature_algorithms 25 >>= λ x. pure (signature_algorithms x))
  arms ExtensionType.signed_certificate_timestamp =
      some (read_unimplemented >>= λ x. pure (signed_certificate_timestamp x))
  arms ExtensionType.certificate_authorities =
      some (read_unimplemented >>= λ x. pure (certificate_authorities x))
  arms ExtensionType.oid_filters = some (read_unimplemented >>= λ x. pure (oid_filters x))
  arms ExtensionType.signature_algorithms_cert =
      some (read_unimplemented >>= λ x. pure (signature_algorithms_cert x))
  arms ExtensionType.compress_certificate =
      some (read_unimplemented >>= λ x. pure (compress_certificate x))
  arms _ = none

  pub arms-Total : (t : ExtensionType) → TotalArm (arms t)
  unfolding arms
  arms-Total ExtensionType.status_request =
      Total-then (Total-read_unimplemented) (λ x _. Total-pure _ tt)
  arms-Total ExtensionType.signature_algorithms =
      Total-then (Total-any (Total-read_signature_algorithms 25)) (λ x _. Total-pure _ tt)
  arms-Total ExtensionType.signed_certificate_timestamp =
      Total-then (Total-read_unimplemented) (λ x _. Total-pure _ tt)
  arms-Total ExtensionType.certificate_authorities =
      Total-then (Total-read_unimplemented) (λ x _. Total-pure _ tt)
  arms-Total ExtensionType.oid_filters =
      Total-then (Total-read_unimplemented) (λ x _. Total-pure _ tt)
  arms-Total ExtensionType.signature_algorithms_cert =
      Total-then (Total-read_unimplemented) (λ x _. Total-pure _ tt)
  arms-Total ExtensionType.compress_certificate =
      Total-then (Total-read_unimplemented) (λ x _. Total-pure _ tt)
  arms-Total _ = tt
