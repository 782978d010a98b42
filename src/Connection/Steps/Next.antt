-- ===== src/Connection/Steps/Next.antt =====
-- src/connection.rs: the state that a step of the handshake returns.
use embedded_tls.Prelude.{◌≡◌}
use embedded_tls.Exec.{ok, pure, raise, bind-returned}
use embedded_tls.Heapless.{Heapless}
use embedded_tls.Suite.{Suite}
use embedded_tls.Ecdh.{Ecdh}
use embedded_tls.KeySchedule.Secrets.{KeySchedule}
use embedded_tls.Handshake.Server.{server_hello}
use embedded_tls.ServerRecord.{ServerRecord, handshake, alert}
use embedded_tls.Connection.State.{State, Handshake}
use embedded_tls.Connection.Steps.{process_server_hello, client_finished_finalize}

module _ ⦃h : Heapless⦄ (c : Suite) (e : Ecdh) where
  pub process_server_hello-next :
      (r : ServerRecord) (s s' : Handshake c e × KeySchedule c) (next : State)
      → process_server_hello c e r s ≡ (ok next, s')
      → next ≡ State.server_verify
  unfolding process_server_hello pure raise
  process_server_hello-next (handshake (server_hello hello)) s s' next p =
      let (_, _, _, p1) = bind-returned _ _ p in
      let (_, _, _, p2) = bind-returned _ _ p1 in let (_, _, _, p3) = bind-returned _ _ p2 in cc
  process_server_hello-next (handshake _) s s' next p = cc
  process_server_hello-next (alert _) s s' next p = cc
  process_server_hello-next _ s s' next p = cc

  pub client_finished_finalize-next :
      (s s' : Handshake c e × KeySchedule c) (next : State)
      → client_finished_finalize c e s ≡ (ok next, s')
      → next ≡ State.application_data
  unfolding client_finished_finalize pure
  client_finished_finalize-next s s' next p =
      let (_, _, _, p1) = bind-returned _ _ p in
      let (_, _, _, p2) = bind-returned _ _ p1 in let (_, _, _, p3) = bind-returned _ _ p2 in cc
