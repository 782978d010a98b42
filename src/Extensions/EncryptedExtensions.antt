-- ===== src/Extensions/EncryptedExtensions.antt =====
-- src/extensions/messages.rs: `EncryptedExtensionsExtension`, the extensions that this message of the server may carry.
use embedded_tls.Prelude.{ℕ, List, Option, none, some}
use embedded_tls.Exec.{pure, ◌>>=◌}
use embedded_tls.Heapless.{Heapless}
use embedded_tls.Parse.{Read}
use embedded_tls.Parse.Total.{Total-any, Total-then, Total-pure}
use embedded_tls.Codec.ExtensionType.{ExtensionType}
use embedded_tls.Codec.Vectors.{MaxFragmentLength, read_max_fragment_length}
use embedded_tls.Codec.Vectors.Bounds.{Total-read_max_fragment_length}
use embedded_tls.Codec.NamedGroup.{NamedGroup}
use embedded_tls.Codec.Vectors.{read_supported_groups}
use embedded_tls.Codec.Vectors.Bounds.{Total-read_supported_groups}
use embedded_tls.Extensions.Data.{
  read_alpn, read_server_name_response, read_unimplemented, Total-read_alpn,
  Total-read_server_name_response, Total-read_unimplemented,
}
use embedded_tls.Extensions.Total.{TotalArm}

pub data EncryptedExtensionsExtension : Type 0 where
  server_name : Unit {0} → EncryptedExtensionsExtension
  max_fragment_length : MaxFragmentLength → EncryptedExtensionsExtension
  supported_groups : List NamedGroup → EncryptedExtensionsExtension
  use_srtp : List ℕ → EncryptedExtensionsExtension
  heartbeat : List ℕ → EncryptedExtensionsExtension
  application_layer_protocol_negotiation : List (List ℕ) → EncryptedExtensionsExtension
  client_certificate_type : List ℕ → EncryptedExtensionsExtension
  server_certificate_type : List ℕ → EncryptedExtensionsExtension
  early_data : List ℕ → EncryptedExtensionsExtension

module _ ⦃h : Heapless⦄ where
  pub arms : ExtensionType → Option (Read EncryptedExtensionsExtension)
  arms ExtensionType.server_name = some (read_server_name_response >>= λ x. pure (server_name x))
  arms ExtensionType.max_fragment_length =
      some (read_max_fragment_length >>= λ x. pure (max_fragment_length x))
  arms ExtensionType.supported_groups =
      some (read_supported_groups 13 >>= λ x. pure (supported_groups x))
  arms ExtensionType.use_srtp = some (read_unimplemented >>= λ x. pure (use_srtp x))
  arms ExtensionType.heartbeat = some (read_unimplemented >>= λ x. pure (heartbeat x))
  arms ExtensionType.application_layer_protocol_negotiation =
      some (read_alpn >>= λ x. pure (application_layer_protocol_negotiation x))
  arms ExtensionType.client_certificate_type =
      some (read_unimplemented >>= λ x. pure (client_certificate_type x))
  arms ExtensionType.server_certificate_type =
      some (read_unimplemented >>= λ x. pure (server_certificate_type x))
  arms ExtensionType.early_data = some (read_unimplemented >>= λ x. pure (early_data x))
  arms _ = none

  pub arms-Total : (t : ExtensionType) → TotalArm (arms t)
  unfolding arms
  arms-Total ExtensionType.server_name =
      Total-then (Total-read_server_name_response) (λ x _. Total-pure _ tt)
  arms-Total ExtensionType.max_fragment_length =
      Total-then (Total-any Total-read_max_fragment_length) (λ x _. Total-pure _ tt)
  arms-Total ExtensionType.supported_groups =
      Total-then (Total-any (Total-read_supported_groups 13)) (λ x _. Total-pure _ tt)
  arms-Total ExtensionType.use_srtp = Total-then (Total-read_unimplemented) (λ x _. Total-pure _ tt)
  arms-Total ExtensionType.heartbeat =
      Total-then (Total-read_unimplemented) (λ x _. Total-pure _ tt)
  arms-Total ExtensionType.application_layer_protocol_negotiation =
      Total-then (Total-any Total-read_alpn) (λ x _. Total-pure _ tt)
  arms-Total ExtensionType.client_certificate_type =
      Total-then (Total-read_unimplemented) (λ x _. Total-pure _ tt)
  arms-Total ExtensionType.server_certificate_type =
      Total-then (Total-read_unimplemented) (λ x _. Total-pure _ tt)
  arms-Total ExtensionType.early_data =
      Total-then (Total-read_unimplemented) (λ x _. Total-pure _ tt)
  arms-Total _ = tt
