-- ===== src/WriteBuffer/Full.antt =====
-- The tests of src/write_buffer.rs on a buffer that holds application data.
use embedded_tls.Prelude.{
  ℕ, ◌+◌, ◌<◌, ◌≡◌, refl, true, false, some, List, arith, length, length-overwrite,
}
use embedded_tls.Exec.{ok, sub, ◌>>=◌}
use embedded_tls.Codec.Header.{ClientRecordHeader, application_data}
use embedded_tls.WriteBuffer.{
  emptied, is_full, is_empty, contains, same_header, max_block_size, tls_record_overhead,
}
use embedded_tls.WriteBuffer.Record.{holding}

pub contains-emptied : (buf : List ℕ) (h : ClientRecordHeader) → contains h (emptied buf) ≡ false
unfolding contains emptied
contains-emptied buf h = refl

pub contains-holding :
    (buf bs : List ℕ) → contains application_data (holding buf bs (some application_data)) ≡ true
unfolding contains same_header
contains-holding buf bs = refl

pub is_empty-emptied : (buf : List ℕ) → is_empty (emptied buf) ≡ true
unfolding is_empty emptied
is_empty-emptied buf = refl

pub is_empty-holding :
    (buf bs : List ℕ) (h : ClientRecordHeader)
    → 0 < length bs
    → is_empty (holding buf bs (some h)) ≡ false
unfolding is_empty
is_empty-holding buf bs h pos = ground arith

pub is_full-holding :
    (buf bs : List ℕ) (h : ClientRecordHeader)
    → length bs + 128 < length buf
    → is_full (holding buf bs (some h)) ≡ (ok false, holding buf bs (some h))
unfolding is_full max_block_size sub tls_record_overhead ◌>>=◌
is_full-holding buf bs h room = ground (arith, length-overwrite buf 0 bs)
