-- ===== src/Tests/Handshakes.antt =====
-- The theorems on the steps of the handshake.
use embedded_tls.Prelude.{ℕ, ◌≡◌, refl, false, List, [], ◌∷◌, ◌++◌, none, some, length, replicate}
use embedded_tls.Error.{crypto_error}
use embedded_tls.Exec.{Returns, err, ok, ◌>>◌}
use embedded_tls.Heapless.{bounded}
use embedded_tls.Ecdh.{Ecdh}
use embedded_tls.Verifier.{Verifier}
use embedded_tls.Aead.{filled}
use embedded_tls.Buffer.{contents}
use embedded_tls.Codec.ContentType.{ContentType, of_code}
use embedded_tls.Codec.NamedGroup.{secp256r1}
use embedded_tls.Codec.Header.{RecordHeader, content_type, content_length}
use embedded_tls.KeySchedule.{increment_counter, xor_all}
use embedded_tls.KeySchedule.Nonce.{padded, get_nonce_lem}
use embedded_tls.KeySchedule.Labels.{c_hs_traffic, s_hs_traffic, c_ap_traffic, s_ap_traffic}
use embedded_tls.KeySchedule.Secrets.{ReadKeySchedule}
use embedded_tls.KeySchedule.Secrets.Refine.{extracted}
use embedded_tls.Buffer.Encodes.{Encodes}
use embedded_tls.Handshake.ClientHello.{
  ClientHello, encode, hello_bytes, finalize, Encodes-client_hello,
}
use embedded_tls.Handshake.ClientHello.Transcript.{Message, finalize-ok, finalize-transcript}
use embedded_tls.Handshake.ServerHello.{ServerHello}
use embedded_tls.Handshake.Server.{server_hello, finished}
use embedded_tls.Extensions.ServerHello.{ServerHelloExtension, key_share, supported_versions}
use embedded_tls.Codec.KeyShare.{KeyShareServerHello}
use embedded_tls.ServerRecord.Decode.{decode_record-Returns}
use embedded_tls.ServerRecord.{decode_record, ServerRecord, handshake, application_data}
use embedded_tls.Connection.{Reading, pass_on, on_keys, decrypt_record}
use embedded_tls.Connection.Decrypt.{
  inner_plaintext, received, decrypt_record-sealed, decrypt_record-refused,
}
use embedded_tls.Connection.Handing.{handed}
use embedded_tls.Connection.State.{State, Handshake}
use embedded_tls.Connection.Steps.{
  verify_record, process_server_hello, process_server_verify, client_finished_finalize,
}
use embedded_tls.Connection.Steps.Authentic.{
  Confirmed, process_server_verify-Confirmed, process_server_verify-finished,
}
use embedded_tls.Connection.Steps.Keys.{process_server_hello_lem, client_finished_finalize_lem}
use embedded_tls.Tests.{some_keys}
use embedded_tls.Tests.Keys.{toy, schedule, server_finished}

-- a group in which every list of bytes is a public key
abbrev pub listing : Ecdh
listing = record {
  EphemeralSecret = ℕ;
  PublicKey = List ℕ;
  from_sec1_bytes = λ bytes. some bytes;
  diffie_hellman = λ secret key. secret ∷ key;
  public_key = λ secret. 4 ∷ secret ∷ [];
}

abbrev pub no_verifier : Verifier (List ℕ)
no_verifier = record {
  State = Unit {0};
  has_verifier = λ s. false;
  verify_certificate = λ t m s. (ok tt, s);
  verify_signature = λ m s. (ok tt, s);
}

abbrev reading : ReadKeySchedule toy
reading = record { state = some_keys; transcript_hash = [] }

abbrev header : RecordHeader
header = record { b0 = 23; b1 = 3; b2 = 3; b3 = 0; b4 = 21 }

-- It keeps the records that it is given.
abbrev keeping : ServerRecord → Reading toy (List ServerRecord) (Unit {0})
keeping r (k, rs) = (ok tt, (k, r ∷ rs))

decrypt_record-sealed_example :
    let plain = inner_plaintext (7 ∷ 8 ∷ []) ContentType.application_data 2 in
    let text = plain ++ replicate 16 0 in
    let b = record (filled (received toy keeping text) plain) { len = 2 } in
    (decrypt_record toy keeping
        (application_data (record { header = header; contents = received toy keeping text }))
        (reading, [])
      ≡ (pass_on toy keeping header ContentType.application_data b >> on_keys toy increment_counter)
          (reading, []))
    × (contents b ≡ 7 ∷ 8 ∷ [])
decrypt_record-sealed_example =
    decrypt_record-sealed toy keeping header (7 ∷ 8 ∷ []) ContentType.application_data 2
      (xor_all some_keys.iv (padded 1)) reading [] (get_nonce_lem some_keys) (λ p. cc)

-- A text that is shorter than the tag.
decrypt_record-refused_example :
    decrypt_record toy keeping
      (application_data (record { header = header; contents = received toy keeping (7 ∷ []) }))
      (reading, [])
    ≡ (err crypto_error, (reading, []))
decrypt_record-refused_example =
    decrypt_record-refused toy keeping header (7 ∷ []) (xor_all some_keys.iv (padded 1)) reading []
      (get_nonce_lem some_keys) refl

abbrev started : Handshake toy listing
started = record { traffic_hash = none; secret = some 3; certificate_request = none }

process_server_verify-Confirmed_example :
    let r = handshake (finished server_finished) in
    let out = process_server_verify toy listing no_verifier r (started, (schedule, tt)) in
    Confirmed toy listing out.1.1.0.server_state.state.traffic_secret
      (handed toy
        (verify_record toy listing no_verifier)
        r
        (schedule.server_state, (started, (State.server_verify, tt))))
      State.client_finished
      out.1.0
process_server_verify-Confirmed_example =
    process_server_verify-Confirmed toy listing no_verifier (handshake (finished server_finished))
      started schedule tt State.client_finished
      (process_server_verify-finished toy listing no_verifier server_finished started schedule tt
        refl refl)

abbrev version : ServerHelloExtension
version = supported_versions (record { selected_version = 0x0304 })

abbrev share : KeyShareServerHello
share = record { share = record { group = secp256r1; opaque = 4 ∷ 5 ∷ [] } }

-- a ServerHello with its key share in second place
abbrev hello : ServerHello
hello = record { extensions = version ∷ key_share share ∷ [] }

process_server_hello_lem_example :
    process_server_hello toy listing (handshake (server_hello hello)) (started, schedule) ≡ (
      ok State.server_verify,
      (
        record started { secret = none },
        extracted toy
            (0 ∷ 3 ∷ [])
            c_hs_traffic
            s_hs_traffic
            schedule.client_state
            schedule.server_state,
      ),
    )
process_server_hello_lem_example =
    process_server_hello_lem toy listing (version ∷ []) [] share started schedule 3 (4 ∷ 5 ∷ [])
      refl (tt, tt) refl

abbrev verified_handshake : Handshake toy listing
verified_handshake = record {
  traffic_hash = some (1 ∷ 2 ∷ []);
  secret = none;
  certificate_request = none;
}

client_finished_finalize_lem_example :
    client_finished_finalize toy listing (verified_handshake, schedule) ≡ (
      ok State.application_data,
      (
        record verified_handshake { traffic_hash = none },
        extracted toy
            (0 ∷ 2 ∷ [])
            c_ap_traffic
            s_ap_traffic
            schedule.client_state
            (record schedule.server_state { transcript_hash = 1 ∷ 2 ∷ [] }),
      ),
    )
client_finished_finalize_lem_example =
    client_finished_finalize_lem toy listing verified_handshake schedule (1 ∷ 2 ∷ []) refl

abbrev received_data : ServerRecord
received_data =
    application_data
      (record { header = header; contents = record { buf = 7 ∷ 8 ∷ []; offset = 0; len = 2 } })

abbrev client_hello_example : ClientHello listing
client_hello_example = record {
  config = record {
    server_name = some (97 ∷ []);
    alpn_protocols = none;
    psk = some (1 ∷ 2 ∷ [], (3 ∷ []) ∷ []);
    signature_schemes = [];
    named_groups = secp256r1 ∷ [];
    max_fragment_length = none;
  };
  random = replicate 32 5;
  secret = 6;
}

Encodes-client_hello_example :
    Encodes (encode toy listing client_hello_example) (hello_bytes toy listing client_hello_example)
Encodes-client_hello_example = Encodes-client_hello toy listing client_hello_example

abbrev pub hello_without_psk : ClientHello listing
hello_without_psk = record {
  config = record {
    server_name = none;
    alpn_protocols = none;
    psk = none;
    signature_schemes = [];
    named_groups = [];
    max_fragment_length = none;
  };
  random = replicate 32 5;
  secret = 6;
}

abbrev pub hello_message : Message toy listing
hello_message = (1 ∷ 2 ∷ 3 ∷ [], ([], schedule.client_state))

finalize-transcript_example :
    let out = finalize toy listing hello_without_psk hello_message in
    (length out.1.0 ≡ 3) × (out.1.1.0 ≡ out.1.0)
finalize-transcript_example =
    finalize-transcript toy listing hello_without_psk hello_message
      (finalize-ok toy listing hello_without_psk hello_message refl)

-- a handshake record of a message type that is not known
abbrev handshake_header : RecordHeader
handshake_header = record { b0 = 22; b1 = 3; b2 = 3; b3 = 0; b4 = 2 }

decode_record-Returns_example :
    Returns (decode_record toy.digest handshake_header (99 ∷ 0 ∷ []) []).0
unfolding content_length content_type of_code
decode_record-Returns_example =
    decode_record-Returns toy.digest handshake_header (99 ∷ 0 ∷ []) [] ContentType.handshake refl
      refl
