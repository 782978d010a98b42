-- ===== src/Blocking/Read.antt =====
-- src/blocking.rs: the reading half of `TlsConnection`. The array of the record that `decrypt_record` opens in
-- place is a part of the read buffer: what it holds when the handler gets it stands in the read buffer then.
pub mod Window
use embedded_tls.Prelude.{
  ℕ, zero, suc, ◌-◌, Bool, true, false, List, [], length, overwrite, ◌==◌, if◌then◌else◌,
}
use embedded_tls.Exec.{Result, ok, err, panic, stuck, Exec, pure, raise, gets, outcome, ◌>>=◌, ◌>>◌}
use embedded_tls.Error.{TlsError, missing_handshake}
use embedded_tls.Heapless.{Heapless}
use embedded_tls.Suite.{Suite}
use embedded_tls.Transport.{Transport}
use embedded_tls.Codec.Header.{content_length}
use embedded_tls.KeySchedule.Secrets.{KeySchedule, ReadKeySchedule}
use embedded_tls.ReadBuffer.{
  DecryptedBufferInfo, info_is_empty, create_read_buffer, deliver, peek_all, pop, drop_buffer,
}
use embedded_tls.ReadBuffer
use embedded_tls.RecordReader.{RecordReader}
use embedded_tls.ServerRecord.{ServerRecord, application_data}
use embedded_tls.Connection.{Reading, decrypt_record}
use embedded_tls.Connection.Receive.{read_record}
use embedded_tls.Connection.ReadHandler.{handle}
use embedded_tls.Blocking.{TlsConnection, Connected}

-- the read buffer, the window of decrypted bytes and `is_open`
abbrev pub Source : Type 0
Source = RecordReader × (DecryptedBufferInfo × Bool)

-- where the array of the record starts: the reader has stepped past it
pub record_start : RecordReader → ServerRecord → ℕ
record_start r (application_data a) = r.decoded - content_length a.header
record_start r _ = r.decoded

pub opened_in_place : RecordReader → ServerRecord → RecordReader
opened_in_place r (application_data a) = record r {
  buf = overwrite r.buf (r.decoded - content_length a.header) a.contents.buf;
}
opened_in_place r _ = r

-- the callback of `read_application_data`
pub handle_in_place : (c : Suite) → ServerRecord → Reading c Source (Unit {0})
handle_in_place c rec (k, (r, s)) =
    let (res, s') = handle (length r.buf) (record_start r rec) rec s in
    (res, (k, (opened_in_place r rec, s')))

module _ ⦃h : Heapless⦄ (c : Suite) (tr : Transport) where
  -- `self.record_reader.read_blocking(&mut self.delegate, key_schedule)`
  pub next_record : Connected c tr ServerRecord
  next_record s =
      let (res, ((r, t), k)) =
        read_record c tr.read_some ((s.record_reader, s.delegate), s.key_schedule.server_state) in
      (
        res,
        record s {
          record_reader = r;
          delegate = t;
          key_schedule = record s.key_schedule { server_state = k };
        },
      )

  pub decrypt_into : ServerRecord → Connected c tr (Unit {0})
  decrypt_into rec s =
      let (res, (k, (r, (i, open_)))) =
        decrypt_record c (handle_in_place c) rec
          (s.key_schedule.server_state, (s.record_reader, (s.decrypted, s.opened))) in
      (
        res,
        record s {
          record_reader = r;
          decrypted = i;
          opened = open_;
          key_schedule = record s.key_schedule { server_state = k };
        },
      )

  pub read_application_data : Connected c tr (Unit {0})
  read_application_data = next_record >>= decrypt_into

  on_decrypted : {A : Type 0} → Exec DecryptedBufferInfo TlsError A → Connected c tr A
  on_decrypted m s = let (r, i) = m s.decrypted in (r, record s { decrypted = i })

  -- `while self.decrypted.is_empty() { self.read_application_data()?; }` The server decides how many records it sends
  -- before the next that carries data, so the number of rounds has no bound.
  pub fill_decrypted : ℕ → Connected c tr (Unit {0})
  fill_decrypted zero = do
    empty ← on_decrypted info_is_empty
    if empty then (λ s. (stuck, s)) else pure tt
  fill_decrypted (suc rounds) = do
    empty ← on_decrypted info_is_empty
    let rest = read_application_data >> fill_decrypted rounds in if empty then rest else pure tt

  -- `read_buffered`, up to the buffer that it lends
  pub read_buffered : ℕ → Connected c tr (Unit {0})
  read_buffered rounds = do
    is_opened ← gets (λ s. s.opened)
    if is_opened then fill_decrypted rounds else raise missing_handshake

  pub deliver_into : List ℕ → Connected c tr (List ℕ × ℕ)
  deliver_into buf s =
      let (r, i) = deliver s.record_reader.buf buf s.decrypted in (r, record s { decrypted = i })

  -- The caller's slice comes back with the number of bytes that were put into it.
  pub read : ℕ → List ℕ → Connected c tr (List ℕ × ℕ)
  read rounds buf =
      if length buf == 0 then pure (buf, 0) else (read_buffered rounds >> deliver_into buf)
