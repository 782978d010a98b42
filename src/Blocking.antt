-- ===== src/Blocking.antt =====
-- src/blocking.rs: `TlsConnection`. src/asynch.rs has the same text but for `.await`; the two halves of
-- `split` run the same calls on the parts that they borrow.
pub mod Written
pub mod Read
pub mod Open
use embedded_tls.Prelude.{ℕ, Bool, true, false, not, List, if◌then◌else◌}
use embedded_tls.Exec.{
  Result, ok, err, panic, stuck, Exec, pure, raise, gets, map_err, outcome, ◌>>=◌, ◌>>◌,
}
use embedded_tls.Error.{TlsError, io, missing_handshake}
use embedded_tls.Heapless.{Heapless}
use embedded_tls.Suite.{Suite}
use embedded_tls.Ecdh.{Ecdh}
use embedded_tls.Transport.{Transport}
use embedded_tls.FlushPolicy
use embedded_tls.FlushPolicy.{FlushPolicy, flush_transport}
use embedded_tls.Codec.Header.{application_data}
use embedded_tls.ClientRecord.{ClientRecord, close_notify}
use embedded_tls.KeySchedule.{increment_counter}
use embedded_tls.KeySchedule.Secrets.{KeySchedule, on_client}
use embedded_tls.KeySchedule.Secrets
use embedded_tls.RecordReader.{RecordReader}
use embedded_tls.RecordReader
use embedded_tls.ReadBuffer.{DecryptedBufferInfo}
use embedded_tls.WriteBuffer.{
  WriteBuffer, Fill, is_empty, is_full, contains, start_record, append, close_record,
}
use embedded_tls.WriteBuffer
use embedded_tls.WriteBuffer.WriteRecord.{close_with_keys, write_record}

pub record TlsConnection (c : Suite) (tr : Transport) : Type 0 where
  pub delegate : tr.State
  pub opened : Bool
  pub key_schedule : KeySchedule c
  pub record_reader : RecordReader
  pub record_write_buf : WriteBuffer
  pub decrypted : DecryptedBufferInfo
  pub flush_policy : FlushPolicy

module _ (c : Suite) (tr : Transport) where
  abbrev pub fresh : tr.State → List ℕ → WriteBuffer → TlsConnection c tr
  fresh delegate record_read_buf record_write_buf = record {
    delegate = delegate;
    opened = false;
    key_schedule = Secrets.new c;
    record_reader = record { buf = record_read_buf; decoded = 0; pending = 0 };
    record_write_buf = record_write_buf;
    decrypted = record { offset = 0; len = 0; consumed = 0 };
    flush_policy = FlushPolicy.default;
  }

  pub new : tr.State → List ℕ → List ℕ → Result TlsError (TlsConnection c tr)
  new delegate record_read_buf record_write_buf = elim (WriteBuffer.new record_write_buf) [
    | ok w ↦ ok (fresh delegate record_read_buf w)
    | err e ↦ err e
    | panic ↦ panic
    | stuck ↦ stuck
  ]

  pub set_flush_policy : FlushPolicy → TlsConnection c tr → TlsConnection c tr
  set_flush_policy policy s = record s { flush_policy = policy }

  abbrev pub Connected : Type 0 → Type 0
  Connected = Exec (TlsConnection c tr) TlsError

  pub on_delegate : {A : Type 0} → Exec tr.State ℕ A → Connected A
  on_delegate m s = let (r, t) = map_err io m s.delegate in (r, record s { delegate = t })

  pub on_write_buf : {A : Type 0} → Fill A → Connected A
  on_write_buf m s = let (r, w) = m s.record_write_buf in (r, record s { record_write_buf = w })

module _ ⦃h : Heapless⦄ (c : Suite) (tr : Transport) where
  pub count_record : Connected c tr (Unit {0})
  count_record s =
      let (r, ks) = on_client c increment_counter s.key_schedule in
      (r, record s { key_schedule = ks })

  -- a call on the write buffer and the key schedule
  pub on_sending : {A : Type 0} → Exec (WriteBuffer × KeySchedule c) TlsError A → Connected c tr A
  on_sending m s =
      let (r, (w, ks)) = m (s.record_write_buf, s.key_schedule) in
      (r, record s { record_write_buf = w; key_schedule = ks })

  pub flush_by_policy : FlushPolicy → Connected c tr (Unit {0})
  flush_by_policy policy = if flush_transport policy then on_delegate c tr tr.flush else pure tt

  -- what `flush` does with a closed record
  pub send_record : List ℕ → Connected c tr (Unit {0})
  send_record slice = do
    on_delegate c tr (tr.write_all slice)
    count_record
    policy ← gets (λ s. s.flush_policy)
    flush_by_policy policy

  pub flush_nonempty : Connected c tr (Unit {0})
  flush_nonempty = on_sending (close_with_keys c) >>= send_record

  pub flush : Connected c tr (Unit {0})
  flush = do
    empty ← gets (λ s. is_empty s.record_write_buf)
    if empty then pure tt else flush_nonempty

  -- `if !self.record_write_buf.contains(ApplicationData) { … }`
  pub start_data : Connected c tr (Unit {0})
  start_data = flush >> on_write_buf c tr (start_record application_data)

  -- the append, and the flush of a buffer that it filled
  pub fill : List ℕ → Connected c tr ℕ
  fill buf = do
    buffered ← on_write_buf c tr (append buf)
    full ← on_write_buf c tr is_full
    if full then flush else pure tt
    pure buffered

  pub write_opened : List ℕ → Connected c tr ℕ
  write_opened buf = do
    started ← gets (λ s. contains application_data s.record_write_buf)
    if started then pure tt else start_data
    fill buf

  pub write : List ℕ → Connected c tr ℕ
  write buf = do
    is_opened ← gets (λ s. s.opened)
    if is_opened then write_opened buf else raise missing_handshake

module _ ⦃h : Heapless⦄ (c : Suite) (tr : Transport) (e : Ecdh) where
  pub close_internal : Connected c tr (Unit {0})
  close_internal = do
    flush c tr
    is_opened ← gets (λ s. s.opened)
    slice ← on_sending c tr (write_record c {e = e} true (close_notify is_opened))
    on_delegate c tr (tr.write_all slice)
    count_record c tr
    on_delegate c tr tr.flush

  -- `close` gives the transport back, with the error where there is one.
  pub close : TlsConnection c tr → Result TlsError (Unit {0}) × tr.State
  close s = let (r, s') = close_internal s in (r, s'.delegate)
