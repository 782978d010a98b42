-- ===== src/ClientRecord/Encoded.antt =====
-- The bytes of the messages of src/handshake/mod.rs and of the records of src/record.rs that a client sends.
use embedded_tls.Prelude.{ℕ, ◌≡◌, List, ◌∷◌, ◌++◌, arith, length}
use embedded_tls.Prelude.Words.{be24}
use embedded_tls.Exec.{ok, gets, sub, ◌>>=◌}
use embedded_tls.Suite.{Suite}
use embedded_tls.Ecdh.{Ecdh}
use embedded_tls.Buffer.{CryptoBuffer}
use embedded_tls.Buffer.Encodes.{Encodes, Encodes-bind, Encodes-push, Encodes-map_err, Fits, put}
use embedded_tls.Buffer.Lengths.{Encodes-with_u24_length}
use embedded_tls.Codec.Alert
use embedded_tls.Codec.HandshakeType
use embedded_tls.Handshake.Certificate.Encoded.{
  AllX509, certificate_bytes, Encodes-encode_certificate,
}
use embedded_tls.Handshake.CertificateVerify
use embedded_tls.Handshake.CertificateVerify.{CertificateVerify}
use embedded_tls.Handshake.Finished
use embedded_tls.Handshake.Finished.{Finished}
use embedded_tls.Handshake.ClientHello.{hello_bytes, Encodes-client_hello}
use embedded_tls.ClientRecord.{
  ClientHandshake, client_cert, client_cert_verify, client_hello, finished, ClientRecord, handshake,
  alert, handshake_type, encode_inner, encode, encode_record, encode_payload,
}

module _ (c : Suite) {e : Ecdh} where
  abbrev pub inner_bytes : ClientHandshake e → List ℕ
  inner_bytes (client_hello hello) = hello_bytes c e hello
  inner_bytes (finished f) = f.verify
  inner_bytes (client_cert m) = certificate_bytes m
  inner_bytes (client_cert_verify v) = CertificateVerify.bytes v

  -- the type, the length modulo 2^24, and the message
  abbrev pub handshake_bytes : ClientHandshake e → List ℕ
  handshake_bytes m =
      HandshakeType.as_u8 (handshake_type m) ∷ (be24 (length (inner_bytes m)) ++ inner_bytes m)

  -- A certificate message with a raw public key is a `todo!`.
  abbrev pub IsEncodable : ClientHandshake e → Type 0
  IsEncodable (client_cert m) = AllX509 m.entries
  IsEncodable _ = Unit

  Encodes-encode_inner :
      (m : ClientHandshake e) → IsEncodable m → Encodes (encode_inner c m) (inner_bytes m)
  unfolding encode_inner
  Encodes-encode_inner (client_hello hello) h = Encodes-client_hello c e hello
  Encodes-encode_inner (finished f) h = Finished.Encodes-finished f
  Encodes-encode_inner (client_cert m) h = Encodes-encode_certificate m h
  Encodes-encode_inner (client_cert_verify v) h = CertificateVerify.Encodes-certificate_verify v

  pub Encodes-encode_handshake :
      (m : ClientHandshake e) → IsEncodable m → Encodes (encode c m) (handshake_bytes m)
  unfolding encode
  Encodes-encode_handshake m h =
      Encodes-bind (Encodes-map_err _ (Encodes-push _))
        (Encodes-with_u24_length (Encodes-encode_inner m h))

  abbrev pub record_bytes : ClientRecord e → List ℕ
  record_bytes (handshake m _) = handshake_bytes m
  record_bytes (alert a _) = Alert.bytes a

  abbrev pub IsEncodableRecord : ClientRecord e → Type 0
  IsEncodableRecord (handshake m _) = IsEncodable m
  IsEncodableRecord (alert _ _) = Unit

  pub Encodes-encode_record :
      (r : ClientRecord e) → IsEncodableRecord r → Encodes (encode_record c r) (record_bytes r)
  unfolding encode_record
  Encodes-encode_record (handshake m _) h = Encodes-encode_handshake m h
  Encodes-encode_record (alert a _) h = Alert.encode-Encodes a

  pub encode_payload_lem :
      (r : ClientRecord e) (b : CryptoBuffer)
      → IsEncodableRecord r
      → Fits b (record_bytes r)
      → encode_payload c r b ≡ (ok (length (record_bytes r)), put b (record_bytes r))
  unfolding encode_payload gets sub ◌>>=◌
  encode_payload_lem r b h fit = rw ((Encodes-encode_record r h).fits b fit) (ground arith)
