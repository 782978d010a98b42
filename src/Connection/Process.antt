-- ===== src/Connection/Process.antt =====
-- src/connection.rs: the steps of the handshake that send, and `State::process`, which runs the step of a
-- state. `process` and `process_blocking`, `respond` and `respond_blocking`, and so on, have the same text but for `.await`.
-- What the caller passes by reference is one record here, `Peer`.
pub mod Transition
pub mod Run
pub mod Abort
use embedded_tls.Prelude.{ℕ, true, false, List, [], ◌∷◌, Option, none, some}
use embedded_tls.Exec.{
  Result, ok, err, panic, stuck, Exec, pure, raise, gets, unwrap, map_err, outcome, ◌>>=◌, ◌>>◌,
}
use embedded_tls.Error.{
  TlsError, io, abort_handshake, invalid_handshake, encode_error, AlertLevel, AlertDescription,
}
use embedded_tls.Heapless.{Heapless}
use embedded_tls.Suite.{Suite}
use embedded_tls.Ecdh.{Ecdh}
use embedded_tls.Transport.{Transport}
use embedded_tls.Provider.{Provider}
use embedded_tls.Codec.SignatureScheme.{SignatureScheme}
use embedded_tls.KeySchedule.{increment_counter}
use embedded_tls.KeySchedule.Secrets.{
  KeySchedule, ReadKeySchedule, require, on_client, initialize_early_secret, create_client_finished,
}
use embedded_tls.Handshake.Certificate.{Certificate, CertificateEntry, with_context, add}
use embedded_tls.Handshake.CertificateVerify.{CertificateVerify}
use embedded_tls.Handshake.ClientHello.{ClientHello, TlsConfig}
use embedded_tls.ClientRecord.{
  ClientRecord, ClientHandshake, handshake, alert, client_hello, client_cert, client_cert_verify,
  finished, close_notify,
}
use embedded_tls.WriteBuffer.{WriteBuffer}
use embedded_tls.WriteBuffer.WriteRecord.{write_record}
use embedded_tls.RecordReader.{RecordReader}
use embedded_tls.ServerRecord.{ServerRecord}
use embedded_tls.Connection.State.{State, Handshake}
use embedded_tls.Connection.Receive.{read_record}
use embedded_tls.Connection.Steps.{
  process_server_hello, process_server_verify, client_finished_finalize,
}

pub record Peer (c : Suite) (e : Ecdh) (tr : Transport) (pr : Provider c e) : Type 0 where
  pub transport : tr.State
  pub handshake : Handshake c e
  pub record_reader : RecordReader
  pub tx_buf : WriteBuffer
  pub key_schedule : KeySchedule c
  pub provider : pr.verifier.State

-- `SIGNATURE_SIZE` without the feature `rsa`
abbrev pub signature_size : ℕ
signature_size = 104

-- "TLS 1.3, client CertificateVerify" and a zero
pub client_context : List ℕ
client_context =
    84 ∷ 76 ∷ 83 ∷ 32 ∷ 49 ∷ 46 ∷ 51 ∷ 44 ∷ 32 ∷ 99 ∷ 108 ∷ 105 ∷ 101 ∷ 110 ∷ 116 ∷ 32 ∷ 67 ∷ 101
    ∷ 114 ∷ 116 ∷ 105 ∷ 102 ∷ 105 ∷ 99 ∷ 97 ∷ 116 ∷ 101 ∷ 86 ∷ 101 ∷ 114 ∷ 105 ∷ 102 ∷ 121 ∷ 0 ∷ []

-- a certificate message with a certificate
abbrev pub added : Result TlsError Certificate → Result TlsError (Certificate × State)
added (ok m) = ok (m, State.client_cert_verify)
added (err e) = err e
added panic = panic
added stuck = stuck

-- the certificate message, and the state behind it
unfoldable pub with_cert :
    ⦃h : Heapless⦄ → Certificate → Option CertificateEntry → Result TlsError (Certificate × State)
with_cert certificate none = ok (certificate, State.client_finished)
with_cert certificate (some cert) = added (add certificate cert)

module _ ⦃h : Heapless⦄ (c : Suite) (e : Ecdh) (tr : Transport) (pr : Provider c e) where
  abbrev pub Processing : Type 0 → Type 0
  Processing = Exec (Peer c e tr pr) TlsError

  on_transport : {A : Type 0} → Exec tr.State ℕ A → Processing A
  on_transport m s = let (r, t) = map_err io m s.transport in (r, record s { transport = t })

  on_keys : {A : Type 0} → Exec (KeySchedule c) TlsError A → Processing A
  on_keys m s = let (r, ks) = m s.key_schedule in (r, record s { key_schedule = ks })

  on_provider : {A : Type 0} → (pr.verifier.State → A × pr.verifier.State) → Processing A
  on_provider m s = let (a, x) = m s.provider in (ok a, record s { provider = x })

  -- `tx_buf.write_record(record, write_key_schedule, Some(read_key_schedule))`
  pub send : ClientRecord e → Processing (List ℕ)
  send r s =
      let (res, (w, ks)) = write_record c true r (s.tx_buf, s.key_schedule) in
      (res, record s { tx_buf = w; key_schedule = ks })

  -- `record_reader.read(transport, key_schedule.read_state())`
  pub receive : Processing ServerRecord
  receive s =
      let (res, ((r, t), k)) =
        read_record c tr.read_some ((s.record_reader, s.transport), s.key_schedule.server_state) in
      (
        res,
        record s {
          record_reader = r;
          transport = t;
          key_schedule = record s.key_schedule { server_state = k };
        },
      )

  on_handshake_keys : Exec (Handshake c e × KeySchedule c) TlsError State → Processing State
  on_handshake_keys m s =
      let (res, (hs, ks)) = m (s.handshake, s.key_schedule) in
      (res, record s { handshake = hs; key_schedule = ks })

  pub on_verification :
      Exec (Handshake c e × (KeySchedule c × pr.verifier.State)) TlsError State → Processing State
  on_verification m s =
      let (res, (hs, (ks, x))) = m (s.handshake, (s.key_schedule, s.provider)) in
      (res, record s { handshake = hs; key_schedule = ks; provider = x })

  pub respond : List ℕ → Processing (Unit {0})
  respond tx = do
    on_transport (tr.write_all tx)
    on_keys (on_client c increment_counter)
    on_transport tr.flush

  -- A step that ends in `AbortHandshake` sends an alert.
  pub alert_error : Result TlsError State → Processing (Unit {0})
  alert_error (err (abort_handshake level description)) = do
    tx ← send (alert (record { level = level; description = description }) false)
    respond tx
  alert_error _ = pure tt

  pub handle_processing_error : Result TlsError State → Processing State
  handle_processing_error result = alert_error result >> outcome result

  -- `let result = …; handle_processing_error(result, …)`
  pub handled : Processing State → Processing State
  handled m s = let (result, s') = m s in handle_processing_error result s'

  pub set_secret : e.EphemeralSecret → Processing (Unit {0})
  set_secret secret s =
      (ok tt, record s { handshake = record s.handshake { secret = some secret } })

  set_traffic_hash : Processing (Unit {0})
  set_traffic_hash s = (
    ok tt,
    record s {
      handshake = record s.handshake {
        traffic_hash = some s.key_schedule.server_state.transcript_hash;
      };
    },
  )

  -- `ClientHello::new`
  pub new_client_hello : TlsConfig → Processing (ClientHello e)
  new_client_hello config = do
    random ← on_provider (pr.random_bytes 32)
    secret ← on_provider pr.ephemeral_secret
    pure (record { config = config; random = random; secret = secret })

  -- `config.psk.as_ref().map(|p| p.0)`
  abbrev psk_of : TlsConfig → Option (List ℕ)
  psk_of config = elim config.psk [ none ↦ none | some psk ↦ some psk.0 ]

  pub send_client_hello : TlsConfig → Processing (State × List ℕ)
  send_client_hello config = do
    on_keys (initialize_early_secret c (psk_of config))
    hello ← new_client_hello config
    slice ← send (handshake (client_hello hello) false)
    set_secret hello.secret
    pure (State.server_hello, slice)

  pub send_client_cert : Processing (State × List ℕ)
  send_client_cert = do
    set_traffic_hash
    request ← gets (λ s. s.handshake.certificate_request)
    asked ← require invalid_handshake request
    cert ← on_provider pr.client_cert
    (certificate, next_state) ← outcome (with_cert (with_context asked.request_context) cert)
    slice ← send (handshake (client_cert certificate) true)
    pure (next_state, slice)

  -- the text that is signed
  pub signed_message : List ℕ → Processing (List ℕ)
  signed_message transcript_hash = do
    padding ← require encode_error (h.resize ℕ 146 [] 64 0x20)
    msg ← require encode_error (h.extend ℕ 146 padding client_context)
    require encode_error (h.extend ℕ 146 msg transcript_hash)

  -- with the signing key and its scheme, or the error that the provider gave
  pub verify_record :
      Result TlsError ((List ℕ → List ℕ) × SignatureScheme)
      → Processing (Result TlsError State × ClientRecord e)
  verify_record (ok (sign, scheme)) = do
    transcript_hash ← gets (λ s. c.digest.finalize s.key_schedule.server_state.transcript_hash)
    msg ← signed_message transcript_hash
    signature ← unwrap (h.extend ℕ signature_size [] (sign msg))
    pure (
      ok State.client_finished,
      handshake (client_cert_verify (record { signature_scheme = scheme; signature = signature }))
          true,
    )
  verify_record (err e) = pure (err e, close_notify true)
  verify_record panic = λ s. (panic, s)
  verify_record stuck = λ s. (stuck, s)

  pub send_client_cert_verify : Processing (Result TlsError State × List ℕ)
  send_client_cert_verify = do
    signer ← on_provider pr.signer
    (result, r) ← verify_record signer
    slice ← send r
    pure (result, slice)

  pub send_client_finished : Processing (List ℕ)
  send_client_finished = do
    client_finished ← map_err (λ _. invalid_handshake) (on_keys (create_client_finished c))
    send (handshake (finished client_finished) true)

  -- `State::process`
  pub process : TlsConfig → State → Processing State
  process config State.client_hello = do
    (state, tx) ← send_client_hello config
    respond tx
    pure state
  process config State.server_hello = do
    r ← receive
    handled (on_handshake_keys (process_server_hello c e r))
  process config State.server_verify = do
    r ← receive
    handled (on_verification (process_server_verify c e pr.verifier r))
  process config State.client_cert = do (state, tx) ← send_client_cert; respond tx; pure state
  process config State.client_cert_verify = do
    (result, tx) ← send_client_cert_verify
    respond tx
    outcome result
  process config State.client_finished = do
    tx ← send_client_finished
    respond tx
    on_handshake_keys (client_finished_finalize c e)
  process config State.application_data = pure State.application_data
