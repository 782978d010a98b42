-- ===== src/Tests/Messages.antt =====
-- The theorems on handshake messages.
use embedded_tls.Prelude.{[], ◌∷◌, arith}
use embedded_tls.Heapless.{bounded}
use embedded_tls.Parse.{ParseBuffer}
use embedded_tls.Parse.Total.{Total}
use embedded_tls.Handshake.Server.{
  parse_server_handshake, Total-parse_server_handshake, read_server_handshake,
}
use embedded_tls.Handshake.Server.Transcript.{Reads, read_server_handshake-Reads}
use embedded_tls.Tests.Keys.{counting}

Total-parse_server_handshake_example : Total 1 (λ _. Unit {0}) (parse_server_handshake 2)
Total-parse_server_handshake_example = Total-parse_server_handshake 2

-- a Finished message behind a byte that was read before
abbrev finished_message : ParseBuffer
finished_message = record { buffer = 0 ∷ 20 ∷ 0 ∷ 0 ∷ 2 ∷ 7 ∷ 8 ∷ []; pos = 1 }

read_server_handshake-Reads_example :
    Reads counting finished_message
      (1 ∷ [])
      (parse_server_handshake 2 finished_message).0
      (read_server_handshake counting (finished_message, 1 ∷ []))
read_server_handshake-Reads_example =
    read_server_handshake-Reads counting finished_message (1 ∷ []) (omega arith)
