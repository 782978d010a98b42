-- ===== src/Connection/Steps.antt =====
-- src/connection.rs: the steps of the handshake that take a record of the server, and the last one.
pub mod Authentic
pub mod Keys
pub mod Next
use embedded_tls.Prelude.{ℕ, Bool, List, Option, none, some, if◌then◌else◌}
use embedded_tls.Exec.{
  Result, ok, err, panic, stuck, Exec, pure, raise, gets, outcome, on_left, on_right, ◌>>=◌, ◌>>◌,
}
use embedded_tls.Error.{
  TlsError, invalid_record, invalid_handshake, invalid_key_share, invalid_signature,
  handshake_aborted,
}
use embedded_tls.Heapless.{Heapless}
use embedded_tls.Suite.{Suite}
use embedded_tls.Ecdh.{Ecdh}
use embedded_tls.Verifier.{Verifier}
use embedded_tls.Codec.KeyShare.{KeyShareEntry}
use embedded_tls.KeySchedule.Secrets.{
  KeySchedule, ReadKeySchedule, require, verify_server_finished, initialize_handshake_secret,
  initialize_master_secret, replace_transcript_hash,
}
use embedded_tls.Handshake.Certificate.{Certificate}
use embedded_tls.Handshake.CertificateRequest.{CertificateRequest, keep_request}
use embedded_tls.Handshake.ServerHello.{ServerHello, server_key_share}
use embedded_tls.Handshake.Server.{
  ServerHandshake, server_hello, encrypted_extensions, certificate, certificate_verify,
  certificate_request, finished,
}
use embedded_tls.ServerRecord.{ServerRecord, handshake, change_cipher_spec, alert}
use embedded_tls.Connection.State.{State, Handshake}
use embedded_tls.Connection.{Reading, decrypt_record}

module _ (c : Suite) (e : Ecdh) where
  -- `Handshake::new`
  pub new_handshake : Handshake c e
  new_handshake = record { traffic_hash = none; secret = none; certificate_request = none }

  -- `ServerHello::calculate_shared_secret`
  unfoldable pub calculate_shared_secret : ServerHello → e.EphemeralSecret → Option (List ℕ)
  calculate_shared_secret hello secret = elim (server_key_share hello) [
    | none ↦ none
    | some share ↦ elim (e.from_sec1_bytes share.opaque) [
      | none ↦ none
      | some public_key ↦ some (e.diffie_hellman secret public_key)
    ]
  ]

  -- `secret.take().ok_or(..)`
  pub take_secret : Exec (Handshake c e) TlsError e.EphemeralSecret
  take_secret hs = require invalid_handshake hs.secret (record hs { secret = none })

  -- `traffic_hash.take().ok_or(..)`
  pub take_traffic_hash : Exec (Handshake c e) TlsError c.digest.State
  take_traffic_hash hs =
      require invalid_handshake hs.traffic_hash (record hs { traffic_hash = none })

module _ ⦃h : Heapless⦄ (c : Suite) (e : Ecdh) where
  abbrev pub Stepping : Type 0 → Type 0
  Stepping = Exec (Handshake c e × KeySchedule c) TlsError

  pub process_server_hello : ServerRecord → Stepping State
  process_server_hello (handshake (server_hello hello)) = do
    secret ← on_left (take_secret c e)
    shared ← require invalid_key_share (calculate_shared_secret c e hello secret)
    on_right (initialize_handshake_secret c shared)
    pure State.server_verify
  process_server_hello (handshake _) = raise invalid_handshake
  process_server_hello (alert a) = raise (handshake_aborted a.level a.description)
  process_server_hello _ = raise invalid_record

  pub client_finished_finalize : Stepping State
  client_finished_finalize = do
    t ← on_left (take_traffic_hash c e)
    on_right (replace_transcript_hash c t)
    on_right (initialize_master_secret c)
    pure State.application_data

module _ ⦃h : Heapless⦄ (c : Suite) (e : Ecdh) (v : Verifier c.digest.State) where
  -- what the callback of `process_server_verify` holds: the handshake, the next state, the verifier
  abbrev pub Held : Type 0
  Held = Handshake c e × (State × v.State)

  abbrev pub Verifying : Type 0 → Type 0
  Verifying = Reading c Held

  -- Where there is no verifier, the check is skipped.
  pub with_verifier : Exec v.State TlsError (Unit {0}) → Verifying (Unit {0})
  with_verifier m = do
    present ← gets (λ s. v.has_verifier s.1.1.1)
    if present then on_right (on_right (on_right m)) else pure tt

  pub set_request : CertificateRequest → Verifying (Unit {0})
  set_request r (k, (hs, x)) = (ok tt, (k, (record hs { certificate_request = some r }, x)))

  pub set_next : State → Verifying (Unit {0})
  set_next n (k, (hs, (_, x))) = (ok tt, (k, (hs, (n, x))))

  pub keep_transcript : Verifying (Unit {0})
  keep_transcript (k, (hs, x)) =
      (ok tt, (k, (record hs { traffic_hash = some k.transcript_hash }, x)))

  -- the state behind a Finished message
  abbrev pub next_state : Option CertificateRequest → Verifying (Unit {0})
  next_state (some _) = set_next State.client_cert
  next_state none = keep_transcript >> set_next State.client_finished

  pub verify_message : ServerHandshake → Verifying (Unit {0})
  verify_message encrypted_extensions = pure tt
  verify_message (certificate m) = do
    transcript ← gets (λ s. s.0.transcript_hash)
    with_verifier (v.verify_certificate transcript m)
  verify_message (certificate_verify m) = with_verifier (v.verify_signature m)
  verify_message (certificate_request m) = do r ← outcome (keep_request m); set_request r
  verify_message (finished f) = do
    verified ← on_left (verify_server_finished c f)
    request ← gets (λ s. s.1.0.certificate_request)
    if verified then next_state request else raise invalid_signature
  verify_message _ = raise invalid_handshake

  pub verify_record : ServerRecord → Verifying (Unit {0})
  verify_record (handshake m) = verify_message m
  verify_record change_cipher_spec = pure tt
  verify_record _ = raise invalid_record

  pub process_server_verify :
      ServerRecord → Exec (Handshake c e × (KeySchedule c × v.State)) TlsError State
  process_server_verify r (hs, (ks, x)) =
      let (res, (k, (hs', (next, x')))) =
        (decrypt_record c verify_record r >> gets (λ s. s.1.1.0))
          (ks.server_state, (hs, (State.server_verify, x))) in
      (res, (hs', (record ks { server_state = k }, x')))
