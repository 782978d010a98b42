-- ===== src/Connection/State.antt =====
-- src/connection.rs: what a handshake keeps between its steps.
use embedded_tls.Prelude.{Option}
use embedded_tls.Suite.{Suite}
use embedded_tls.Ecdh.{Ecdh}
use embedded_tls.Handshake.CertificateRequest.{CertificateRequest}

pub data State : Type 0 where
  client_hello server_hello server_verify client_cert client_cert_verify client_finished : State
  application_data : State

pub record Handshake (c : Suite) (e : Ecdh) : Type 0 where
  pub traffic_hash : Option c.digest.State
  pub secret : Option e.EphemeralSecret
  pub certificate_request : Option CertificateRequest
