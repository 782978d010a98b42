-- ===== src/Tests/Connections.antt =====
-- The theorems on the records that a client sends and on a whole connection.
use mathlib.Core.List.{flat_map}
use embedded_tls.Prelude.{
  ℕ, ◌+◌, ◌≡◌, refl, ap, true, false, List, [], ◌∷◌, ◌++◌, none, arith, length, replicate,
  length-replicate, overwrite,
}
use embedded_tls.Prelude.Words.{be16}
use embedded_tls.Error.{TlsError, AlertDescription, fatal, abort_handshake, io}
use embedded_tls.Exec.{Result, ok, err, for_each, ◌>>◌}
use embedded_tls.Heapless.{bounded}
use embedded_tls.Transport.{Transport}
use embedded_tls.Provider.{Provider}
use embedded_tls.FlushPolicy.{strict}
use embedded_tls.Codec.SignatureScheme.{ed25519}
use embedded_tls.Codec.Alert.{Alert}
use embedded_tls.KeySchedule.{xor_all}
use embedded_tls.KeySchedule.Nonce.{padded, get_nonce_lem}
use embedded_tls.KeySchedule.Secrets.{KeySchedule}
use embedded_tls.ReadBuffer.Stream.{InfoIsValid}
use embedded_tls.ClientRecord.{ClientHandshake, client_hello, finished, handshake}
use embedded_tls.ClientRecord.Encoded.{handshake_bytes}
use embedded_tls.Handshake.ClientHello as Hello
use embedded_tls.Handshake.ClientHello.Transcript.{Message, finalize-ok}
use embedded_tls.WriteBuffer
use embedded_tls.WriteBuffer.WriteRecord.{write_record}
use embedded_tls.WriteBuffer.WriteRecord.Sent.{finished_with}
use embedded_tls.WriteBuffer.WriteRecord.Transcribed.{
  sealed_record, write_record-encrypted, write_record-client_hello,
}
use embedded_tls.Connection.State.{State}
use embedded_tls.Connection.Process.{Peer, Processing, process}
use embedded_tls.Connection.Process.Transition.{Leads, process-Leads}
use embedded_tls.Blocking.{TlsConnection, write, flush, send_record}
use embedded_tls.Blocking.Written.{write_chunk, writes-flush, flush-nonce_reused}
use embedded_tls.Blocking.Read.{read}
use embedded_tls.Blocking.Read.Window.{read-WindowIsValid}
use embedded_tls.Blocking.Open.{Attempted, open_connection, peer, open_connection-Attempted}
use embedded_tls.Tests.{some_keys}
use embedded_tls.Tests.Keys.{toy, schedule}
use embedded_tls.Tests.Handshakes.{listing, no_verifier, hello_without_psk}

-- It keeps what it was given and gives nothing.
abbrev collecting : Transport
collecting = record {
  State = List ℕ;
  read_some = λ n t. (ok [], t);
  write_all = λ bs t. (ok tt, t ++ bs);
  flush = λ t. (ok tt, t);
}

-- It is closed.
abbrev broken : Transport
broken = record {
  State = List ℕ;
  read_some = λ n t. (err 7, t);
  write_all = λ bs t. (err 7, t);
  flush = λ t. (err 7, t);
}

abbrev plain_provider : Provider toy listing
plain_provider = record {
  verifier = no_verifier;
  random_bytes = λ n s. (replicate n 3, s);
  ephemeral_secret = λ s. (5, s);
  client_cert = λ s. (none, s);
  signer = λ s. (ok ((λ msg. msg), ed25519), s);
  set_hostname_verification = λ name s. (ok tt, s);
}

abbrev some_nonce : List ℕ
some_nonce = xor_all some_keys.iv (padded 1)

-- with keys for what it writes
abbrev keyed : KeySchedule toy
keyed = record schedule { client_state = record { state = some_keys; binder_key = none } }

abbrev connection : (tr : Transport) → tr.State → TlsConnection toy tr
connection tr t = record {
  delegate = t;
  opened = true;
  key_schedule = keyed;
  record_reader = record { buf = replicate 9 0; decoded = 0; pending = 0 };
  record_write_buf = WriteBuffer.emptied (replicate 150 0);
  decrypted = record { offset = 2; len = 3; consumed = 1 };
  flush_policy = strict;
}

abbrev last_message : ClientHandshake listing
last_message = finished (record { verify = 6 ∷ 7 ∷ []; hash = none })

write_record-encrypted_example :
    let p = handshake_bytes toy last_message in
    let bytes = sealed_record toy some_keys some_nonce 22 p in
    write_record toy true
      (handshake last_message true)
      (WriteBuffer.emptied (replicate 150 0), keyed)
    ≡ (
      ok bytes,
      (
        WriteBuffer.emptied (overwrite (replicate 150 0) 0 bytes),
        finished_with keyed (toy.digest.update (5 ∷ []) p) keyed.client_state,
      ),
    )
write_record-encrypted_example =
    write_record-encrypted toy (replicate 150 0) keyed last_message some_nonce tt
      (get_nonce_lem some_keys) (omega arith) (omega arith)

abbrev hello_bytes : List ℕ
hello_bytes = handshake_bytes toy (client_hello hello_without_psk)

abbrev hello_run : Result TlsError (Unit {0}) × Message toy listing
hello_run = Hello.finalize toy listing hello_without_psk (hello_bytes, (5 ∷ [], keyed.client_state))

-- room for the message and for what a record takes beside it
abbrev hello_room : List ℕ
hello_room = replicate (130 + length hello_bytes) 0

write_record-client_hello_example :
    let q = hello_run.1.0 in
    let t = hello_run.1.1.0 in
    let bytes = 22 ∷ 3 ∷ 1 ∷ (be16 (length q) ++ q) in
    (write_record toy true
        (handshake (client_hello hello_without_psk) false)
        (WriteBuffer.emptied hello_room, keyed)
      ≡ (
        ok bytes,
        (WriteBuffer.emptied (overwrite hello_room 0 bytes), finished_with keyed t hello_run.1.1.1),
      ))
    × (t ≡ toy.digest.update (5 ∷ []) q)
write_record-client_hello_example =
    write_record-client_hello toy hello_room keyed hello_without_psk hello_run.1.0 hello_run.1.1.0
      hello_run.1.1.1 (omega (arith, length-replicate {A = ℕ} (130 + length hello_bytes) 0))
      (ap (λ r. (r, hello_run.1))
        (finalize-ok toy listing hello_without_psk (hello_bytes, (5 ∷ [], keyed.client_state))
          refl))

abbrev waiting : Peer toy listing collecting plain_provider
waiting = peer toy listing collecting plain_provider (connection collecting []) tt

process-Leads_example :
    Leads State.client_hello
      (process toy listing collecting plain_provider hello_without_psk.config State.client_hello
        waiting).0
process-Leads_example =
    process-Leads toy listing collecting plain_provider hello_without_psk.config waiting
      State.client_hello

abbrev aborting : Processing toy listing collecting plain_provider State
aborting w = (err (abort_handshake fatal AlertDescription.illegal_parameter), w)

open_connection-Attempted_example :
    let s = connection broken [] in
    Attempted toy listing broken plain_provider hello_without_psk.config s
      (open_connection toy listing broken plain_provider hello_without_psk.config 4 (s, tt))
open_connection-Attempted_example =
    open_connection-Attempted toy listing broken plain_provider hello_without_psk.config 4
      (connection broken []) tt

writes-flush_example :
    let p : List ℕ = 7 ∷ 8 ∷ 9 ∷ [] in
    let s = connection collecting [] in
    let bytes = sealed_record toy some_keys some_nonce 23 p in
    (for_each (write_chunk toy collecting) ((7 ∷ []) ∷ (8 ∷ 9 ∷ []) ∷ []) >> flush toy collecting) s
    ≡ send_record toy collecting bytes
        (record s { record_write_buf = WriteBuffer.emptied (overwrite (replicate 150 0) 0 bytes) })
unfolding flat_map
writes-flush_example =
    writes-flush toy collecting (replicate 150 0) (connection collecting []) (7 ∷ [])
      ((8 ∷ 9 ∷ []) ∷ []) some_nonce refl refl (get_nonce_lem some_keys) (omega arith) (omega arith)
      (omega arith)

flush-nonce_reused_example :
    let s = connection broken [] in
    let lost = (write toy broken (7 ∷ []) >> flush toy broken) s in
    let next = sealed_record toy some_keys some_nonce 23 (8 ∷ []) in
    (lost.0 ≡ err (io 7))
    × ((write toy broken (8 ∷ []) >> flush toy broken) lost.1
        ≡ send_record toy broken next (record lost.1 {
          record_write_buf = WriteBuffer.emptied (overwrite lost.1.record_write_buf.buffer 0 next);
        }))
flush-nonce_reused_example =
    flush-nonce_reused toy broken (replicate 150 0) (connection broken []) (7 ∷ []) (8 ∷ [])
      some_nonce 7 [] refl refl (get_nonce_lem some_keys) (omega arith) (omega arith) (omega arith)
      (omega arith) (omega arith) refl

read-WindowIsValid_example :
    let s' = (read toy collecting 3 (0 ∷ []) (connection collecting [])).1 in
    InfoIsValid s'.record_reader.buf s'.decrypted
read-WindowIsValid_example =
    read-WindowIsValid toy collecting 3 (0 ∷ []) (connection collecting [])
      (record { inside = omega arith; behind = omega arith })
