-- ===== src/ReadBuffer.antt =====
-- src/read_buffer.rs `ReadBuffer` and src/common/decrypted_buffer_info.rs `DecryptedBufferInfo`: how the
-- decrypted bytes of a record are handed to the reader, piece by piece.
-- `DecryptedBufferInfo` lends its `consumed` to the read buffer; `drop` writes it back.
pub mod Stream
use embedded_tls.Prelude.{
  ℕ, ◌+◌, ◌-◌, ◌≤◌, Bool, true, false, List, [], ◌∷◌, length, take, drop, overwrite, min, leb, ltb,
  ◌==◌, if◌then◌else◌,
}
use embedded_tls.Exec.{Result, ok, panic, Exec, sub, ◌>>=◌, ◌>>◌}
use embedded_tls.Error.{TlsError}

-- `decrypted_consumed` is the value behind the borrowed reference.
pub record ReadBuffer : Type 0 where
  pub bytes : List ℕ
  pub consumed : ℕ
  pub used : Bool
  pub decrypted_consumed : ℕ

pub new : List ℕ → ℕ → ReadBuffer
new buffer decrypted_consumed = record {
  bytes = buffer;
  consumed = 0;
  used = false;
  decrypted_consumed = decrypted_consumed;
}

abbrev pub Reads : Type 0 → Type 0
Reads = Exec ReadBuffer TlsError

-- `self.data.len() - self.consumed`
pub len : Reads ℕ
len b = sub (length b.bytes) b.consumed b

pub is_empty : Reads Bool
unfolding len ◌>>=◌
is_empty = do n ← len; λ b. (ok (n == 0), b)

-- `&self.data[start..start + count]`
range : ℕ → ℕ → Reads (List ℕ)
range start count b =
    if leb (start + count) (length b.bytes)
    then (ok (take count (drop start b.bytes)), b)
    else (panic, b)

mark : ℕ → Reads (Unit {0})
mark count b = (ok tt, record b { consumed = b.consumed + count; used = true })

touch : Reads (Unit {0})
touch b = (ok tt, record b { used = true })

pub peek : ℕ → Reads (List ℕ)
unfolding len range touch sub ◌>>=◌
peek count b = (do n ← len; touch; range b.consumed (min n count)) b

pub peek_all : Reads (List ℕ)
unfolding ◌>>=◌
peek_all = do n ← len; peek n

pub pop : ℕ → Reads (List ℕ)
unfolding len range mark sub ◌>>=◌
pop count b = (do n ← len; mark (min n count); range b.consumed (min n count)) b

pub pop_all : Reads (List ℕ)
unfolding ◌>>=◌
pop_all = do n ← len; pop n

-- The destination is what `buf` holds; the result has its front overwritten and the count.
pub pop_into : List ℕ → Reads (List ℕ × ℕ)
unfolding ◌>>=◌
pop_into buf = do to_copy ← pop (length buf); λ b. (ok (overwrite buf 0 to_copy, length to_copy), b)

-- `revert` forgets the buffer, so the reference keeps its value; `drop` advances it.
pub revert : ReadBuffer → ℕ
revert b = b.decrypted_consumed

pub drop_buffer : ReadBuffer → ℕ
drop_buffer b = b.decrypted_consumed + (if b.used then b.consumed else length b.bytes)

pub record DecryptedBufferInfo : Type 0 where
  pub offset : ℕ
  pub len : ℕ
  pub consumed : ℕ

pub create_read_buffer : List ℕ → Exec DecryptedBufferInfo TlsError ReadBuffer
unfolding new
create_read_buffer buffer i =
    let start = i.offset + i.consumed in
    let end = i.offset + i.len in
    if leb start end
    then if leb end (length buffer)
      then (ok (new (take (end - start) (drop start buffer)) i.consumed), i)
      else (panic, i)
    else (panic, i)

pub info_len : Exec DecryptedBufferInfo TlsError ℕ
info_len i = sub i.len i.consumed i

pub info_is_empty : Exec DecryptedBufferInfo TlsError Bool
unfolding info_len ◌>>=◌
info_is_empty = do n ← info_len; λ i. (ok (n == 0), i)

-- `pop_into` the caller's slice, and the drop at the end of the scope
hand_over : List ℕ → ReadBuffer → Exec DecryptedBufferInfo TlsError (List ℕ × ℕ)
hand_over buf b i = let (r, b') = pop_into buf b in (r, record i { consumed = drop_buffer b' })

-- What the reads of src/blocking.rs and src/asynch.rs do with the bytes at hand: a read buffer over
-- them, which fills the caller's slice.
pub deliver : List ℕ → List ℕ → Exec DecryptedBufferInfo TlsError (List ℕ × ℕ)
deliver buffer buf = do b ← create_read_buffer buffer; hand_over buf b
