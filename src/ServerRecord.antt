-- ===== src/ServerRecord.antt =====
-- src/record.rs: `ServerRecord`, the record that `RecordReader` hands over, and src/application_data.rs
-- (`contents` is its `data`). The payload is a list of bytes of its own: it stays borrowed from the
-- reader while the record lives, and the reader has stepped past it.
pub mod Decode
use embedded_tls.Prelude.{ℕ, Bool, List, length, ◌==◌, if◌then◌else◌}
use embedded_tls.Exec.{ok, panic, Exec, pure, raise, unwrap, outcome, with_local, ◌>>=◌, ◌>>◌}
use embedded_tls.Error.{TlsError, unimplemented}
use embedded_tls.Heapless.{Heapless}
use embedded_tls.Digest.{Digest}
use embedded_tls.Buffer.{CryptoBuffer, wrap_with_pos}
use embedded_tls.Parse
use embedded_tls.Codec.Alert
use embedded_tls.Codec.Alert.{Alert}
use embedded_tls.Codec.ContentType.{ContentType}
use embedded_tls.Codec.Header.{RecordHeader, content_type, content_length}
use embedded_tls.Handshake.Server.{ServerHandshake, read_server_handshake}

pub record ApplicationData : Type 0 where
  pub header : RecordHeader
  pub contents : CryptoBuffer

pub data ServerRecord : Type 0 where
  handshake : ServerHandshake → ServerRecord
  change_cipher_spec : ServerRecord
  alert : Alert → ServerRecord
  application_data : ApplicationData → ServerRecord

-- `ServerRecord::content_type`
pub record_content_type : ServerRecord → ContentType
record_content_type (handshake _) = ContentType.handshake
record_content_type change_cipher_spec = ContentType.change_cipher_spec
record_content_type (alert _) = ContentType.alert
record_content_type (application_data _) = ContentType.application_data

-- `assert!`
pub assert_true : {S E : Type 0} → Bool → Exec S E (Unit {0})
assert_true b s = if b then (ok tt, s) else (panic, s)

module _ ⦃h : Heapless⦄ (d : Digest) where
  pub decode_payload : ContentType → RecordHeader → List ℕ → Exec d.State TlsError ServerRecord
  decode_payload ContentType.invalid header payload = raise unimplemented
  decode_payload ContentType.change_cipher_spec header payload = pure change_cipher_spec
  decode_payload ContentType.alert header payload = do
    a ← outcome ((Alert.parse (Parse.new payload)).0)
    pure (alert a)
  decode_payload ContentType.handshake header payload = do
    m ← with_local (Parse.new payload) (read_server_handshake d)
    pure (handshake m)
  decode_payload ContentType.application_data header payload = pure (
      application_data
        (record { header = header; contents = wrap_with_pos payload (length payload) }))

  -- `ServerRecord::decode`
  pub decode_record : RecordHeader → List ℕ → Exec d.State TlsError ServerRecord
  decode_record header payload = do
    assert_true (content_length header == length payload)
    t ← unwrap (content_type header)
    decode_payload t header payload
