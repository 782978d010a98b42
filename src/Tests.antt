-- ===== src/Tests.antt =====
-- The theorems at concrete inputs.
pub mod Keys
pub mod Messages
pub mod Handshakes
pub mod Connections
pub mod Configuration
pub mod Certificates
use embedded_tls.Exec.{err, Result}
use embedded_tls.Prelude.{ap, ◌∙◌, Option, some, ◌-◌, le→leb, take-append}
use embedded_tls.Error.{TlsError, crypto_error}
use embedded_tls.Buffer.{CryptoBuffer, Write, contents}
use embedded_tls.Aead.{Aead, filled}
use embedded_tls.KeySchedule.{KeyScheduleState, xor_all}
use embedded_tls.KeySchedule.Nonce.{padded, get_nonce_lem, get_nonce_injective}
use embedded_tls.Codec.Selected.{
  SupportedVersionsServerHello, read_selected_version, write_selected_version,
  selected_version-round_trip, PreSharedKeyServerHello, read_selected_identity,
  write_selected_identity, selected_identity-round_trip,
}
use embedded_tls.Codec.ServerName.{
  ServerName, host_name, is_ascii, name_type_code, server_name_bytes, write_server_names,
  read_server_names, Total-read_server_names, server_names-round_trip,
}
use embedded_tls.Handshake.CertificateVerify
use embedded_tls.Handshake.CertificateVerify.{CertificateVerify, certificate_verify-round_trip}
use embedded_tls.Handshake.Finished
use embedded_tls.Handshake.Finished.{Finished, finished-round_trip}
use embedded_tls.Prelude.{take, drop, min, take-append-drop, length-take}
use embedded_tls.Exec.{Exec}
use embedded_tls.Codec.ContentType
use embedded_tls.Codec.Header.{RecordHeader, content_length}
use embedded_tls.RecordReader.{RecordReader, read}
use embedded_tls.RecordReader.Framing.{Delivers}
use embedded_tls.RecordReader.Whole
use embedded_tls.RecordReader.Whole.{read-Delivered}
use embedded_tls.WriteBuffer
use embedded_tls.WriteBuffer.{start_record, append, close_record}
use embedded_tls.WriteBuffer.Record.{holding, append-holding}
use embedded_tls.WriteBuffer.Send.{outer, record_is_sealed, record_is_plain}
use embedded_tls.Prelude.{
  replicate, overwrite, leb, if◌then◌else◌, length-append, none, ℕ, ◌+◌, ◌≤◌, ◌≡◌, refl, true,
  false, List, [], ◌∷◌, ◌++◌, arith, length,
}
use mathlib.Core.List.{flat_map}
use embedded_tls.Prelude.Words.{be16}
use embedded_tls.Exec.{ok, ◌>>◌}
use embedded_tls.Error.{warning, close_notify}
use embedded_tls.Heapless.{bounded}
use embedded_tls.Buffer.{
  with_u8_length, with_u16_length, with_u24_length, push, extend_from_slice, forward, rewind,
  wrap_with_pos,
}
use embedded_tls.Buffer.Encodes.{Encodes, put, Encodes-push, Encodes-extend_from_slice}
use embedded_tls.Buffer.Lengths.{
  Encodes-with_u8_length, Encodes-with_u16_length, Encodes-with_u24_length,
}
use embedded_tls.Buffer.Moves.{forward-rewind}
use embedded_tls.Parse.{read_list, read_u8}
use embedded_tls.Parse.Total.{Total, Total-read_list}
use embedded_tls.Parse.Parses.{Parses, Parses-read_u8}
use embedded_tls.Parse.Lists.{Parses-read_list}
use embedded_tls.Codec.NamedGroup.{NamedGroup, x25519, secp256r1}
use embedded_tls.Codec.SignatureScheme.{SignatureScheme, ed25519}
use embedded_tls.Codec.KeyShare.{
  KeyShareClientHello, entry_bytes, group_bytes, read_client_hello, write_client_hello, read_entry,
  Total-read_entry, Total-read_client_hello, Parses-read_client_hello, Encodes-write_client_hello,
}
use embedded_tls.Codec.Lists.{list8, list16}
use embedded_tls.Codec.Vectors.{
  write_supported_groups, read_supported_groups, write_signature_algorithms,
  read_signature_algorithms, write_supported_versions, read_supported_versions, PskKeyExchangeMode,
  psk_dhe_ke, write_psk_modes, read_psk_modes, bits9, fragment_code, write_max_fragment_length,
  read_max_fragment_length,
}
use embedded_tls.Codec.Vectors.RoundTrip.{
  scheme_bytes, mode_bytes, supported_groups-round_trip, signature_algorithms-round_trip,
  supported_versions-round_trip, psk_modes-round_trip, max_fragment_length-round_trip,
}
use embedded_tls.Codec.Vectors.Bounds.{
  Total-read_signature_algorithms, Total-read_supported_versions,
}
use embedded_tls.Codec.Alert
use embedded_tls.Codec.Alert.{Alert, parse-Parses, encode-Encodes}
use embedded_tls.Codec.Header
use embedded_tls.Codec.Header.{
  handshake, is_encrypted, trailer_content_type, application_data, encode_header-Encodes,
}
use embedded_tls.ReadBuffer.{ReadBuffer, DecryptedBufferInfo, deliver, peek, pop}
use embedded_tls.ReadBuffer.Stream.{
  IsValid, unread, Delivered, deliver-Delivered, pop-unread, peek-pop,
}

abbrev some_bytes : List ℕ
some_bytes = 7 ∷ 8 ∷ 9 ∷ []

abbrev pub window : DecryptedBufferInfo
window = record { offset = 5; len = 3; consumed = 1 }

abbrev pub record_bytes : List ℕ
record_bytes = 23 ∷ 3 ∷ 3 ∷ 0 ∷ 20 ∷ 7 ∷ 8 ∷ 9 ∷ 23 ∷ []

deliver-Delivered_example :
    Delivered record_bytes (0 ∷ []) window (deliver record_bytes (0 ∷ []) window)
deliver-Delivered_example =
    deliver-Delivered record_bytes (0 ∷ []) window
      (record { inside = omega arith; behind = omega arith })

Total-read_list_example : Total 8 (λ xs. Unit {0}) (read_list 4 8 read_entry)
Total-read_list_example = Total-read_list 4 8 read_entry Total-read_entry

abbrev one_byte : ℕ → List ℕ
one_byte x = x ∷ []

Parses-read_list_example : Parses (read_list 4 3 read_u8) some_bytes some_bytes
unfolding flat_map
Parses-read_list_example =
    Parses-read_list 4 read_u8 one_byte some_bytes
      (Parses-read_u8 7, (Parses-read_u8 8, (Parses-read_u8 9, tt))) (λ _. omega arith)
      (omega arith)

Encodes-with_u16_length_example :
    Encodes (with_u16_length (extend_from_slice some_bytes)) (0 ∷ 3 ∷ some_bytes)
Encodes-with_u16_length_example = Encodes-with_u16_length (Encodes-extend_from_slice some_bytes)

abbrev shares : KeyShareClientHello
shares = record { client_shares = record { group = secp256r1; opaque = some_bytes } ∷ [] }

abbrev groups : List NamedGroup
groups = x25519 ∷ secp256r1 ∷ []

abbrev schemes : List SignatureScheme
schemes = ed25519 ∷ []

abbrev modes : List PskKeyExchangeMode
modes = psk_dhe_ke ∷ []

abbrev closing : Alert
closing = record { level = warning; description = close_notify }

abbrev half_read : ReadBuffer
half_read = record { bytes = some_bytes; consumed = 1; used = true; decrypted_consumed = 0 }

abbrev marked : List ℕ → List ℕ
marked text = text ++ replicate 16 0

abbrev mark_in_place : (key nonce additional_data : List ℕ) → Write (Unit {0})
mark_in_place key nonce additional_data b =
    if leb (b.offset + b.len + 16) (length b.buf)
    then (ok tt, filled b (marked (contents b)))
    else (err crypto_error, b)

pub mark_in_place_ok :
    (key nonce additional_data : List ℕ) (b : CryptoBuffer)
    → b.offset + b.len + 16 ≤ length b.buf
    → b.len ≤ 16384
    → mark_in_place key nonce additional_data b ≡ (ok tt, filled b (marked (contents b)))
mark_in_place_ok key nonce additional_data b h small = ground arith

abbrev unmarked : List ℕ → Option (List ℕ)
unmarked text = if leb 16 (length text) then some (take (length text - 16) text) else none

pub unmarked-marked : (plain : List ℕ) → unmarked (marked plain) ≡ some plain
unmarked-marked plain =
    let n : length (marked plain) ≡ length plain + 16 = length-append plain (replicate 16 0) in
    let m : length (marked plain) - 16 ≡ length plain = omega arith in
    rw (le→leb 16 (length (marked plain)) (omega arith))
      (ap some (ap (λ k. take k (marked plain)) m ∙ take-append plain (replicate 16 0)))

abbrev unmark : CryptoBuffer → Option (List ℕ) → Result TlsError (Unit {0}) × CryptoBuffer
unmark b none = (err crypto_error, b)
unmark b (some plain) = (ok tt, filled b plain)

-- a cipher that leaves the text as it is, with a tag of zeros
abbrev pub marking : Aead
marking = record {
  tag_size = 16;
  max_plain = 16384;
  seal = λ key nonce additional_data plain. marked plain;
  length-seal = λ key nonce additional_data plain. length-append plain (replicate 16 0);
  encrypt_in_place = mark_in_place;
  encrypt_in_place_ok = mark_in_place_ok;
  unseal = λ key nonce additional_data text. unmarked text;
  unseal-seal = λ key nonce additional_data plain. unmarked-marked plain;
  decrypt_in_place = λ key nonce additional_data b. unmark b (unmarked (contents b));
  decrypt_in_place_ok = λ key nonce additional_data b plain inside p. ap (unmark b) p;
  decrypt_in_place_err = λ key nonce additional_data b inside p. rw p tt;
}

abbrev pub some_keys : KeyScheduleState
some_keys = record { traffic_secret = none; counter = 1; key = 5 ∷ []; iv = replicate 12 9 }

record_is_sealed_example :
    let nonce = xor_all some_keys.iv (padded 1) in
    let q : List ℕ = 7 ∷ 8 ∷ 23 ∷ [] in
    let bytes = outer 19 ++ marking.seal some_keys.key nonce (outer 19) q in
    (start_record application_data >> (append (7 ∷ 8 ∷ []) >> close_record marking some_keys))
      (WriteBuffer.emptied (replicate 140 0))
    ≡ (ok bytes, WriteBuffer.emptied (overwrite (replicate 140 0) 0 bytes))
unfolding ContentType.as_u8 trailer_content_type is_encrypted
record_is_sealed_example =
    record_is_sealed marking some_keys application_data (replicate 140 0) (7 ∷ 8 ∷ [])
      (xor_all some_keys.iv (padded 1)) refl (get_nonce_lem some_keys) (omega arith) (omega arith)
      (omega arith)

get_nonce_injective_example : ◌≡◌ {A = ℕ} 3 3
get_nonce_injective_example =
    get_nonce_injective some_keys 3 3 refl (omega arith) (omega arith) refl

append-holding_example :
    append (7 ∷ 8 ∷ 9 ∷ []) (holding (replicate 131 0) (1 ∷ []) none)
    ≡ (ok 2, holding (replicate 131 0) (1 ∷ 7 ∷ 8 ∷ []) none)
append-holding_example =
    append-holding (replicate 131 0) (1 ∷ []) (7 ∷ 8 ∷ 9 ∷ []) none (omega arith)

-- a transport that gives two bytes at a time
abbrev by_twos : ℕ → Exec (List ℕ) ℕ (List ℕ)
by_twos n t = (ok (take (min n 2) t), drop (min n 2) t)

by_twos-Delivers : Delivers by_twos (λ t. t)
by_twos-Delivers = record {
  chunk = λ n t. (
    take (min n 2) t,
    refl,
    take-append-drop (min n 2) t,
    omega (arith, length-take (min n 2) t),
    λ some_room some_bytes. omega (arith, length-take (min n 2) t),
  );
}

abbrev alert_header : RecordHeader
alert_header = record { b0 = 21; b1 = 3; b2 = 3; b3 = 0; b4 = 2 }

-- the reader has no room left behind what it has decoded
abbrev reader : RecordReader
reader = record { buf = replicate 6 0; decoded = 5; pending = 0 }

read-Delivered_example :
    Whole.Delivered
      (λ (t : List ℕ). t)
      alert_header
      reader
      (1 ∷ 0 ∷ [])
      (22 ∷ [])
      (read by_twos (reader, 21 ∷ 3 ∷ 3 ∷ 0 ∷ 2 ∷ 1 ∷ 0 ∷ 22 ∷ []))
unfolding ContentType.of_code content_length
read-Delivered_example =
    read-Delivered by_twos-Delivers alert_header ContentType.alert reader
      (21 ∷ 3 ∷ 3 ∷ 0 ∷ 2 ∷ 1 ∷ 0 ∷ 22 ∷ []) (1 ∷ 0 ∷ []) (22 ∷ [])
      (record { nothing = refl; inside = omega arith }) refl refl (omega arith) refl

abbrev names : List ServerName
names = record { name_type = host_name; name = 97 ∷ 46 ∷ 98 ∷ [] } ∷ []

server_names-round_trip_example :
    Encodes (write_server_names names) (list16 server_name_bytes names)
    × Parses (read_server_names 1) names (list16 server_name_bytes names)
unfolding is_ascii name_type_code flat_map
server_names-round_trip_example =
    server_names-round_trip 1 names ((refl, omega arith), tt) (omega arith) (omega arith)

abbrev signed : CertificateVerify
signed = record { signature_scheme = ed25519; signature = 4 ∷ 5 ∷ [] }

certificate_verify-round_trip_example :
    Encodes (CertificateVerify.encode signed) (CertificateVerify.bytes signed)
    × Parses CertificateVerify.parse signed (CertificateVerify.bytes signed)
certificate_verify-round_trip_example = certificate_verify-round_trip signed (omega arith)

abbrev finished_example : Finished
finished_example = record { verify = some_bytes; hash = none }

abbrev selected : SupportedVersionsServerHello
selected = record { selected_version = 0x0304 }

abbrev identity : PreSharedKeyServerHello
identity = record { selected_identity = 0 }
