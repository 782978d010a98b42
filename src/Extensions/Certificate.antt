-- ===== src/Extensions/Certificate.antt =====
-- src/extensions/messages.rs: `CertificateExtension`, the extensions that this message of the server may carry.
use embedded_tls.Prelude.{ℕ, List, Option, none, some}
use embedded_tls.Exec.{pure, ◌>>=◌}
use embedded_tls.Parse.{Read}
use embedded_tls.Parse.Total.{Total-then, Total-pure}
use embedded_tls.Codec.ExtensionType.{ExtensionType}
use embedded_tls.Extensions.Data.{read_unimplemented, Total-read_unimplemented}
use embedded_tls.Extensions.Total.{TotalArm}

pub data CertificateExtension : Type 0 where
  status_request : List ℕ → CertificateExtension
  signed_certificate_timestamp : List ℕ → CertificateExtension

pub arms : ExtensionType → Option (Read CertificateExtension)
arms ExtensionType.status_request = some (read_unimplemented >>= λ x. pure (status_request x))
arms ExtensionType.signed_certificate_timestamp =
    some (read_unimplemented >>= λ x. pure (signed_certificate_timestamp x))
arms _ = none

pub arms-Total : (t : ExtensionType) → TotalArm (arms t)
unfolding arms
arms-Total ExtensionType.status_request =
    Total-then (Total-read_unimplemented) (λ x _. Total-pure _ tt)
arms-Total ExtensionType.signed_certificate_timestamp =
    Total-then (Total-read_unimplemented) (λ x _. Total-pure _ tt)
arms-Total _ = tt
