-- ===== src/Connection/Receive.antt =====
-- src/record_reader.rs: `RecordReader::read`, which hands the payload that it cut out to
-- `ServerRecord::decode` with the transcript of the key schedule.
use embedded_tls.Prelude.{ℕ, List}
use embedded_tls.Exec.{Exec, on_left, on_right, ◌>>=◌}
use embedded_tls.Error.{TlsError}
use embedded_tls.Heapless.{Heapless}
use embedded_tls.Suite.{Suite}
use embedded_tls.KeySchedule.Secrets.{ReadKeySchedule}
use embedded_tls.RecordReader.{RecordReader, read}
use embedded_tls.ServerRecord.{ServerRecord, decode_record}

module _ (c : Suite) where
  pub on_transcript :
      {A : Type 0} → Exec c.digest.State TlsError A → Exec (ReadKeySchedule c) TlsError A
  on_transcript m k = let (r, t) = m k.transcript_hash in (r, record k { transcript_hash = t })

module _ ⦃h : Heapless⦄ (c : Suite) {T : Type 0} (read_some : ℕ → Exec T ℕ (List ℕ)) where
  unfoldable pub read_record : Exec ((RecordReader × T) × ReadKeySchedule c) TlsError ServerRecord
  read_record = do
    (header, payload) ← on_left (read read_some)
    on_right (on_transcript c (decode_record c.digest header payload))
