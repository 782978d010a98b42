-- ===== src/Codec/Header.antt =====
-- src/record.rs: the header of a record, as the client writes it (`ClientRecordHeader`) and as it reads
-- it (`RecordHeader`, five bytes).
use embedded_tls.Prelude.{
  ℕ, ◌≡◌, refl, Bool, true, false, List, [], ◌∷◌, Option, none, some, length,
}
use embedded_tls.Prelude.Words.{of_be16}
use embedded_tls.Exec.{Result, ok, err, map_err, ◌>>◌}
use embedded_tls.Error.{TlsError, encode_error, invalid_record}
use embedded_tls.Buffer.{Write, push, extend_from_slice}
use embedded_tls.Buffer.Encodes.{
  Encodes, Encodes-push, Encodes-bind, Encodes-map_err, Encodes-extend_from_slice,
}
use embedded_tls.Codec.ContentType.{
  ContentType, change_cipher_spec, application_data as application_data_type, as_u8, of_code,
}

pub data ClientRecordHeader : Type 0 where
  handshake : Bool → ClientRecordHeader
  alert : Bool → ClientRecordHeader
  application_data : ClientRecordHeader

unfoldable pub is_encrypted : ClientRecordHeader → Bool
is_encrypted (handshake encrypted) = encrypted
is_encrypted (alert encrypted) = encrypted
is_encrypted application_data = true

-- An alert that is not encrypted is announced as a `ChangeCipherSpec`.
unfoldable pub header_content_type : ClientRecordHeader → ContentType
header_content_type (handshake false) = ContentType.handshake
header_content_type (alert false) = change_cipher_spec
header_content_type (handshake true) = application_data_type
header_content_type (alert true) = application_data_type
header_content_type application_data = application_data_type

unfoldable pub trailer_content_type : ClientRecordHeader → ContentType
trailer_content_type (handshake _) = ContentType.handshake
trailer_content_type (alert _) = ContentType.alert
trailer_content_type application_data = application_data_type

unfoldable pub version : ClientRecordHeader → List ℕ
version (handshake true) = 0x03 ∷ 0x03 ∷ []
version (alert true) = 0x03 ∷ 0x03 ∷ []
version application_data = 0x03 ∷ 0x03 ∷ []
version (handshake false) = 0x03 ∷ 0x01 ∷ []
version (alert false) = 0x03 ∷ 0x01 ∷ []

pub encode : ClientRecordHeader → Write (Unit {0})
encode h =
    map_err (λ _. encode_error) (push (as_u8 (header_content_type h)))
    >> map_err (λ _. encode_error) (extend_from_slice (version h))

abbrev pub bytes : ClientRecordHeader → List ℕ
bytes h = as_u8 (header_content_type h) ∷ version h

-- The encoder of a record header appends exactly the content type and the two version bytes,
-- or fails for lack of room; it never panics.
pub encode_header-Encodes : (h : ClientRecordHeader) → Encodes (encode h) (bytes h)
unfolding encode
encode_header-Encodes h =
    Encodes-bind (Encodes-map_err _ (Encodes-push (as_u8 (header_content_type h))))
      (Encodes-map_err _ (Encodes-extend_from_slice (version h)))

pub length-version : (h : ClientRecordHeader) → length (version h) ≡ 2
unfolding version
length-version (handshake true) = refl
length-version (handshake false) = refl
length-version (alert true) = refl
length-version (alert false) = refl
length-version application_data = refl

-- The record header read from the transport: `[u8; 5]`.
pub record RecordHeader : Type 0 where
  pub b0 : ℕ
  pub b1 : ℕ
  pub b2 : ℕ
  pub b3 : ℕ
  pub b4 : ℕ

unfoldable pub content_type : RecordHeader → Option ContentType
content_type h = of_code h.b0

unfoldable pub content_length : RecordHeader → ℕ
content_length h = of_be16 h.b3 h.b4

unfoldable pub decode : RecordHeader → Result TlsError RecordHeader
decode h = elim (of_code h.b0) [ none ↦ err invalid_record | some _ ↦ ok h ]
