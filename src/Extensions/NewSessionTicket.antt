-- ===== src/Extensions/NewSessionTicket.antt =====
-- src/extensions/messages.rs: `NewSessionTicketExtension`, the extensions that this message of the server may carry.
use embedded_tls.Prelude.{ℕ, List, Option, none, some}
use embedded_tls.Exec.{pure, ◌>>=◌}
use embedded_tls.Parse.{Read}
use embedded_tls.Parse.Total.{Total-then, Total-pure}
use embedded_tls.Codec.ExtensionType.{ExtensionType}
use embedded_tls.Extensions.Data.{read_unimplemented, Total-read_unimplemented}
use embedded_tls.Extensions.Total.{TotalArm}

pub data NewSessionTicketExtension : Type 0 where
  early_data : List ℕ → NewSessionTicketExtension

pub arms : ExtensionType → Option (Read NewSessionTicketExtension)
arms ExtensionType.early_data = some (read_unimplemented >>= λ x. pure (early_data x))
arms _ = none

pub arms-Total : (t : ExtensionType) → TotalArm (arms t)
unfolding arms
arms-Total ExtensionType.early_data = Total-then (Total-read_unimplemented) (λ x _. Total-pure _ tt)
arms-Total _ = tt
