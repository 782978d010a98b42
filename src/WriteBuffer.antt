-- ===== src/WriteBuffer.antt =====
-- src/write_buffer.rs: `WriteBuffer`, in which one record at a time is put together, and `encrypt` of
-- src/connection.rs. The borrowed forms of the struct share its fields and are the same object here.
pub mod Record
pub mod Close
pub mod Send
pub mod WriteRecord
pub mod Full
use embedded_tls.Prelude.{
  ℕ, ◌+◌, ◌-◌, ◌/◌, ◌%◌, Bool, true, false, ◌&&◌, not, Option, none, some, List, [], ◌∷◌, ◌++◌,
  length, take, overwrite, min, ltb, leb, ◌==◌, if◌then◌else◌,
}
use embedded_tls.Prelude.Words.{as_u16, be16}
use embedded_tls.Exec.{
  Result, ok, err, panic, stuck, Exec, pure, raise, gets, unwrap, map_err, outcome, sub, ◌>>=◌,
  ◌>>◌,
}
use embedded_tls.Error.{TlsError, insufficient_space, encode_error, invalid_application_data}
use embedded_tls.Buffer.{
  CryptoBuffer, Write, wrap_with_pos, capacity, push, push_u16, move_to, rewind,
}
use embedded_tls.Aead.{Aead}
use embedded_tls.KeySchedule.{KeyScheduleState, get_nonce}
use embedded_tls.Codec.ContentType
use embedded_tls.Codec.Header.{
  ClientRecordHeader, handshake, alert, application_data, is_encrypted, trailer_content_type,
}
use embedded_tls.Codec.Header

pub record WriteBuffer : Type 0 where
  pub buffer : List ℕ
  pub pos : ℕ
  pub current_header : Option ClientRecordHeader

abbrev pub Fill : Type 0 → Type 0
Fill = Exec WriteBuffer TlsError

pub tls_record_overhead : ℕ
tls_record_overhead = 128

abbrev pub header_size : ℕ
header_size = 5

-- a write buffer with nothing in it
unfoldable pub emptied : List ℕ → WriteBuffer
emptied buffer = record { buffer = buffer; pos = 0; current_header = none }

-- `debug_assert!(buffer.len() > TLS_RECORD_OVERHEAD)`
pub new : List ℕ → Result TlsError WriteBuffer
new buffer = if ltb tls_record_overhead (length buffer) then ok (emptied buffer) else panic

max_block_size : Fill ℕ
unfolding tls_record_overhead
max_block_size w = sub (length w.buffer) tls_record_overhead w

pub is_full : Fill Bool
unfolding max_block_size ◌>>=◌
is_full = do m ← max_block_size; λ w. (ok (w.pos == m), w)

pub is_empty : WriteBuffer → Bool
is_empty w = w.pos == 0

space : Fill ℕ
unfolding max_block_size sub ◌>>=◌
space = do m ← max_block_size; λ w. sub m w.pos w

same_header : ClientRecordHeader → ClientRecordHeader → Bool
same_header (handshake true) (handshake b) = b
same_header (handshake false) (handshake b) = not b
same_header (alert true) (alert b) = b
same_header (alert false) (alert b) = not b
same_header application_data application_data = true
same_header (handshake _) (alert _) = false
same_header (handshake _) application_data = false
same_header (alert _) (handshake _) = false
same_header (alert _) application_data = false
same_header application_data (handshake _) = false
same_header application_data (alert _) = false

pub contains : ClientRecordHeader → WriteBuffer → Bool
contains header w = elim w.current_header [ none ↦ false | some h ↦ same_header h header ]

-- `self.buffer[start..start + bs.len()].copy_from_slice(bs)`, and an assignment to one index
store : ℕ → List ℕ → Fill (Unit {0})
store start bs w =
    if leb (start + length bs) (length w.buffer)
    then (ok tt, record w { buffer = overwrite w.buffer start bs })
    else (panic, w)

set_pos : ℕ → Fill (Unit {0})
set_pos n w = (ok tt, record w { pos = n })

-- the first `buffered` bytes of `buf` are copied
take_in : List ℕ → ℕ → Fill ℕ
unfolding store set_pos ◌>>=◌
take_in buf buffered w =
    (if ltb 0 buffered
        then (do store w.pos (take buffered buf); set_pos (w.pos + buffered); pure buffered)
        else pure buffered)
      w

pub append : List ℕ → Fill ℕ
unfolding space take_in ◌>>=◌
append buf = do room ← space; take_in buf (min (length buf) room)

abbrev pub finish :
    Result TlsError (Unit {0})
    → CryptoBuffer
    → WriteBuffer
    → Result TlsError (Unit {0}) × WriteBuffer
finish (ok _) b w = (ok tt, record w { buffer = b.buf; pos = b.len })
finish (err e) b w = (err e, record w { buffer = b.buf })
finish panic b w = (panic, record w { buffer = b.buf })
finish stuck b w = (stuck, record w { buffer = b.buf })

-- The buffer that `op` gives back is the wrapped one: only its length is taken over.
pub with_buffer : Write (Unit {0}) → Fill (Unit {0})
unfolding wrap_with_pos
with_buffer op w = let (r, b) = op (wrap_with_pos w.buffer w.pos) in finish r b w

set_header : Option ClientRecordHeader → Fill (Unit {0})
set_header h w = (ok tt, record w { current_header = h })

-- `debug_assert!(current_header.is_none())`
assert_no_header : Fill (Unit {0})
assert_no_header w = elim w.current_header [ none ↦ (ok tt, w) | some _ ↦ (panic, w) ]

pub start_record : ClientRecordHeader → Fill (Unit {0})
unfolding assert_no_header set_header ◌>>=◌
start_record header = do
  assert_no_header
  set_header (some header)
  with_buffer (do Header.encode header; push_u16 0; rewind)

-- `current_header.take().unwrap()`
take_header : Fill ClientRecordHeader
unfolding ◌>>=◌
take_header w = unwrap w.current_header (record w { current_header = none })

-- the length behind the content type and the version
pub write_length : Fill (Unit {0})
write_length w =
    (do n ← sub w.pos header_size; store 3 ((as_u16 n / 256) ∷ []); store 4 ((as_u16 n % 256) ∷ []))
      w

-- `&buffer[..*pos]`, and the reset
pub emit : Fill (List ℕ)
emit w =
    if leb w.pos (length w.buffer)
    then (ok (take w.pos w.buffer), record w { pos = 0; current_header = none })
    else (panic, w)

module _ (aead : Aead) (keys : KeyScheduleState) where
  abbrev pub additional_data : ℕ → List ℕ
  additional_data len =
      ContentType.as_u8 ContentType.application_data ∷ 0x03 ∷ 0x03 ∷ be16 (as_u16 len)

  pub encrypt : Write (Unit {0})
  unfolding ◌>>=◌ ContentType.as_u8
  encrypt = do
    nonce ← outcome (get_nonce keys)
    len ← gets (λ b. b.len + aead.tag_size)
    room ← gets capacity
    if ltb room len
        then raise insufficient_space
        else map_err (λ _. invalid_application_data)
            (aead.encrypt_in_place keys.key nonce (additional_data len))

  pub protect : ClientRecordHeader → Write (Unit {0})
  protect header =
      if is_encrypted header
      then (do
        map_err (λ _. encode_error) (push (ContentType.as_u8 (trailer_content_type header)))
        move_to header_size
        encrypt
        rewind)
      else pure tt

  pub close_record : Fill (List ℕ)
  unfolding ◌>>=◌
  close_record = do header ← take_header; with_buffer (protect header); write_length; emit
