-- ===== src/Handshake/NewSessionTicket.antt =====
-- src/handshake/new_session_ticket.rs, which keeps nothing of the ticket.
use embedded_tls.Exec.{Exec, pure, map_err, ◌>>=◌}
use embedded_tls.Error.{TlsError, invalid_nonce_length, invalid_ticket_length}
use embedded_tls.Heapless.{Heapless}
use embedded_tls.Parse.{ParseBuffer, lift, read_u8, read_u16, read_u32, slice}
use embedded_tls.Parse.Total.{
  Total, Total-any, Total-then, Total-map_err, Total-pure, Total-read_u8, Total-read_u16,
  Total-read_u32, Total-slice,
}
use embedded_tls.Extensions.{parse_vector}
use embedded_tls.Extensions.Total.{Total-parse_vector}
use embedded_tls.Extensions.NewSessionTicket.{arms, arms-Total}

module _ ⦃h : Heapless⦄ where
  pub parse_new_session_ticket : Exec ParseBuffer TlsError (Unit {0})
  parse_new_session_ticket = do
    lifetime ← lift read_u32
    age_add ← lift read_u32
    nonce_length ← lift read_u8
    nonce ← map_err (λ _. invalid_nonce_length) (slice nonce_length)
    ticket_length ← lift read_u16
    ticket ← map_err (λ _. invalid_ticket_length) (slice ticket_length)
    extensions ← parse_vector arms 1
    pure tt

  pub Total-parse_new_session_ticket : Total 4 (λ _. Unit {0}) parse_new_session_ticket
  unfolding parse_new_session_ticket
  Total-parse_new_session_ticket = Total-then (Total-map_err _ Total-read_u32) (λ _ _.
      Total-then (Total-any (Total-map_err _ Total-read_u32)) (λ _ _.
        Total-then (Total-any (Total-map_err _ Total-read_u8)) (λ n _.
          Total-then (Total-any (Total-map_err _ (Total-slice n))) (λ _ _.
            Total-then (Total-any (Total-map_err _ Total-read_u16)) (λ n _.
              Total-then (Total-any (Total-map_err _ (Total-slice n))) (λ _ _.
                Total-then (Total-any (Total-parse_vector arms 1 arms-Total))
                  (λ _ _. Total-pure tt tt)))))))
