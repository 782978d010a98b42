-- ===== src/WriteBuffer/WriteRecord.antt =====
-- src/write_buffer.rs: `write_record`, which puts a whole record of the handshake together. It is given both
-- halves of a key schedule; `given` tells whether the reading half is there.
pub mod Sent
pub mod Transcribed
use embedded_tls.Prelude.{ℕ, Bool, List, Option, none, some, if◌then◌else◌}
use embedded_tls.Exec.{Result, ok, err, panic, Exec, pure, raise, gets, on_left, ◌>>=◌, ◌>>◌}
use embedded_tls.Error.{TlsError, internal_error}
use embedded_tls.Heapless.{Heapless}
use embedded_tls.Suite.{Suite}
use embedded_tls.Ecdh.{Ecdh}
use embedded_tls.Buffer.{CryptoBuffer, wrap_with_pos, forward, rewind}
use embedded_tls.Codec.Header.{ClientRecordHeader}
use embedded_tls.KeySchedule.Secrets.{KeySchedule, WriteKeySchedule}
use embedded_tls.ClientRecord.{ClientRecord, Finishing, header, encode_payload, finish_record}
use embedded_tls.WriteBuffer.{WriteBuffer, finish, start_record, close_record}

-- `with_buffer` of a closure that changes more than the buffer
pub with_buffer_and :
    {X : Type 0}
    → Exec (CryptoBuffer × X) TlsError (Unit {0})
    → Exec (WriteBuffer × X) TlsError (Unit {0})
unfolding wrap_with_pos
with_buffer_and op (w, x) =
    let (r, (b, x')) = op (wrap_with_pos w.buffer w.pos, x) in
    let (r', w') = finish r b w in (r', (w', x'))

-- `if current_header.is_some() { return Err(InternalError) }`
pub refuse_open : {S : Type 0} → Option ClientRecordHeader → Exec S TlsError (Unit {0})
refuse_open (some _) = raise internal_error
refuse_open none = pure tt

-- `read_key_schedule.ok_or(InternalError)?`
pub require_reading : {S : Type 0} → Bool → Exec S TlsError (Unit {0})
require_reading given = if given then pure tt else raise internal_error

module _ (c : Suite) where
  -- the transcript of the reading half, and the writing half
  pub on_halves : Finishing c (Unit {0}) → Exec (CryptoBuffer × KeySchedule c) TlsError (Unit {0})
  on_halves m (b, ks) =
      let (r, (b', (t, k))) = m (b, (ks.server_state.transcript_hash, ks.client_state)) in
      (
        r,
        (
          b',
          record ks {
            client_state = k;
            server_state = record ks.server_state { transcript_hash = t };
          },
        ),
      )

  abbrev pub Sending : Type 0 → Type 0
  Sending = Exec (WriteBuffer × KeySchedule c) TlsError

  pub close_with_keys : Sending (List ℕ)
  close_with_keys (w, ks) =
      let (r, w') = close_record c.aead ks.client_state.state w in (r, (w', ks))

module _ ⦃h : Heapless⦄ (c : Suite) {e : Ecdh} where
  -- the closure of `write_record`
  pub write_payload :
      Bool → ClientRecord e → Exec (CryptoBuffer × KeySchedule c) TlsError (Unit {0})
  write_payload given r = do
    on_left forward
    on_left (encode_payload c r)
    require_reading given
    on_halves c (finish_record c r)
    on_left rewind

  pub write_record : Bool → ClientRecord e → Sending c (List ℕ)
  write_record given r = do
    open_header ← gets (λ s. s.0.current_header)
    refuse_open open_header
    on_left (start_record (header r))
    with_buffer_and (write_payload given r)
    close_with_keys c
