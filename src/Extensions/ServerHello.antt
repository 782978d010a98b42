-- ===== src/Extensions/ServerHello.antt =====
-- src/extensions/messages.rs: `ServerHelloExtension`, the extensions that this message of the server may carry.
use embedded_tls.Prelude.{ℕ, List, Option, none, some}
use embedded_tls.Exec.{pure, ◌>>=◌}
use embedded_tls.Parse.{Read}
use embedded_tls.Parse.Total.{Total-any, Total-then, Total-pure}
use embedded_tls.Codec.ExtensionType.{ExtensionType}
use embedded_tls.Codec.KeyShare.{KeyShareServerHello, read_server_hello, Total-read_server_hello}
use embedded_tls.Codec.Selected.{
  PreSharedKeyServerHello, read_selected_identity, Total-read_selected_identity,
}
use embedded_tls.Codec.Selected.{
  SupportedVersionsServerHello, read_selected_version, Total-read_selected_version,
}
use embedded_tls.Extensions.Data.{read_unimplemented, Total-read_unimplemented}
use embedded_tls.Extensions.Total.{TotalArm}

pub data ServerHelloExtension : Type 0 where
  key_share : KeyShareServerHello → ServerHelloExtension
  pre_shared_key : PreSharedKeyServerHello → ServerHelloExtension
  cookie : List ℕ → ServerHelloExtension
  supported_versions : SupportedVersionsServerHello → ServerHelloExtension

pub arms : ExtensionType → Option (Read ServerHelloExtension)
arms ExtensionType.key_share = some (read_server_hello >>= λ x. pure (key_share x))
arms ExtensionType.pre_shared_key = some (read_selected_identity >>= λ x. pure (pre_shared_key x))
arms ExtensionType.cookie = some (read_unimplemented >>= λ x. pure (cookie x))
arms ExtensionType.supported_versions =
    some (read_selected_version >>= λ x. pure (supported_versions x))
arms _ = none

pub arms-Total : (t : ExtensionType) → TotalArm (arms t)
unfolding arms
arms-Total ExtensionType.key_share =
    Total-then (Total-any Total-read_server_hello) (λ x _. Total-pure _ tt)
arms-Total ExtensionType.pre_shared_key =
    Total-then (Total-any Total-read_selected_identity) (λ x _. Total-pure _ tt)
arms-Total ExtensionType.cookie = Total-then (Total-read_unimplemented) (λ x _. Total-pure _ tt)
arms-Total ExtensionType.supported_versions =
    Total-then (Total-any Total-read_selected_version) (λ x _. Total-pure _ tt)
arms-Total _ = tt
