-- ===== src/ClientRecord.antt =====
-- src/handshake/mod.rs: `ClientHandshake`; src/record.rs: `ClientRecord`, the records that a client sends
-- during the handshake and at the end. `finish_record` updates the transcript with the message that
-- was encoded into the window.
pub mod Encoded
pub mod Finish
use embedded_tls.Prelude.{ℕ, ◌+◌, Bool, true, false, List, length, overwrite}
use embedded_tls.Exec.{
  Result, ok, err, panic, Exec, pure, gets, map_err, sub, on_left, on_right, ◌>>=◌, ◌>>◌,
}
use embedded_tls.Error.{TlsError, encode_error, warning, close_notify as close_notify_description}
use embedded_tls.Heapless.{Heapless}
use embedded_tls.Suite.{Suite}
use embedded_tls.Ecdh.{Ecdh}
use embedded_tls.Buffer.{CryptoBuffer, Write, push, as_slice, with_u24_length}
use embedded_tls.Codec.Alert
use embedded_tls.Codec.Alert.{Alert}
use embedded_tls.Codec.HandshakeType
use embedded_tls.Codec.HandshakeType.{HandshakeType}
use embedded_tls.Codec.Header.{ClientRecordHeader}
use embedded_tls.KeySchedule.Secrets.{WriteKeySchedule}
use embedded_tls.Handshake.Certificate.{Certificate, encode_certificate}
use embedded_tls.Handshake.CertificateVerify
use embedded_tls.Handshake.CertificateVerify.{CertificateVerify}
use embedded_tls.Handshake.Finished
use embedded_tls.Handshake.Finished.{Finished}
use embedded_tls.Handshake.ClientHello
use embedded_tls.Handshake.ClientHello.{ClientHello}

pub data ClientHandshake (e : Ecdh) : Type 0 where
  client_cert : Certificate → ClientHandshake e
  client_cert_verify : CertificateVerify → ClientHandshake e
  client_hello : ClientHello e → ClientHandshake e
  finished : Finished → ClientHandshake e

pub data ClientRecord (e : Ecdh) : Type 0 where
  handshake : ClientHandshake e → Bool → ClientRecord e
  alert : Alert → Bool → ClientRecord e

module _ {e : Ecdh} where
  unfoldable pub handshake_type : ClientHandshake e → HandshakeType
  handshake_type (client_hello _) = HandshakeType.client_hello
  handshake_type (finished _) = HandshakeType.finished
  handshake_type (client_cert _) = HandshakeType.certificate
  handshake_type (client_cert_verify _) = HandshakeType.certificate_verify

  unfoldable pub header : ClientRecord e → ClientRecordHeader
  header (handshake _ encrypted) = ClientRecordHeader.handshake encrypted
  header (alert _ encrypted) = ClientRecordHeader.alert encrypted

  -- `ClientRecord::close_notify`
  unfoldable pub close_notify : Bool → ClientRecord e
  close_notify opened =
      alert (record { level = warning; description = close_notify_description }) opened

module _ (c : Suite) {e : Ecdh} where
  pub encode_inner : ClientHandshake e → Write (Unit {0})
  encode_inner (client_hello inner) = ClientHello.encode c e inner
  encode_inner (finished inner) = Finished.encode inner
  encode_inner (client_cert inner) = encode_certificate inner
  encode_inner (client_cert_verify inner) = CertificateVerify.encode inner

  -- `ClientHandshake::encode`
  pub encode : ClientHandshake e → Write (Unit {0})
  encode m =
      map_err (λ _. encode_error) (push (HandshakeType.as_u8 (handshake_type m)))
      >> with_u24_length (encode_inner m)

  pub encode_record : ClientRecord e → Write (Unit {0})
  encode_record (handshake m _) = encode m
  encode_record (alert a _) = Alert.encode a

  -- It returns the number of bytes that the window grew by.
  pub encode_payload : ClientRecord e → Write ℕ
  encode_payload r = do
    record_length_marker ← gets (λ b. b.len)
    encode_record r
    len ← gets (λ b. b.len)
    sub len record_length_marker

module _ (c : Suite) where
  -- the buffer, the transcript and the key schedule
  abbrev pub Finishing : Type 0 → Type 0
  Finishing = Exec (CryptoBuffer × (c.digest.State × WriteKeySchedule)) TlsError

  pub update_with : List ℕ → Finishing (Unit {0})
  update_with bytes (b, (t, k)) = (ok tt, (b, (c.digest.update t bytes, k)))

  -- an action on the bytes of the window, which it may change: `as_mut_slice`
  pub on_mut_slice :
      Exec (List ℕ × (c.digest.State × WriteKeySchedule)) TlsError (Unit {0}) → Finishing (Unit {0})
  on_mut_slice m = on_left as_slice >>= λ bytes s.
      let (r, (bytes', s')) = m (bytes, s.1) in
      (r, (record s.0 { buf = overwrite s.0.buf s.0.offset bytes' }, s'))

  pub finalize_encrypted : Finishing (Unit {0})
  finalize_encrypted = do enc_buf ← on_left as_slice; update_with enc_buf

module _ ⦃h : Heapless⦄ (c : Suite) {e : Ecdh} where
  -- `ClientHandshake::finalize`
  pub finalize : ClientHandshake e → Finishing c (Unit {0})
  finalize (client_hello hello) = on_mut_slice c (ClientHello.finalize c e hello)
  finalize _ = do enc_buf ← on_left as_slice; update_with c enc_buf

  pub finish_record : ClientRecord e → Finishing c (Unit {0})
  finish_record (handshake m false) = finalize m
  finish_record (handshake _ true) = finalize_encrypted c
  finish_record (alert _ _) = pure tt
