-- ===== src/Connection/Process/Abort.antt =====
-- src/connection.rs: the alert that is sent where a step aborts the handshake.
use embedded_tls.Prelude.{ℕ, List, ◌∷◌}
use embedded_tls.Heapless.{Heapless}
use embedded_tls.Suite.{Suite}
use embedded_tls.Ecdh.{Ecdh}
use embedded_tls.Transport.{Transport}
use embedded_tls.Provider.{Provider}
use embedded_tls.Codec.Alert
use embedded_tls.Codec.Alert.{Alert}
use embedded_tls.Connection.State.{State}

-- the unencrypted record of an alert, which is announced as a `ChangeCipherSpec`
abbrev pub alert_record : Alert → List ℕ
alert_record a = 20 ∷ 3 ∷ 1 ∷ 0 ∷ 2 ∷ Alert.bytes a
