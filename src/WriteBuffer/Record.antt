-- ===== src/WriteBuffer/Record.antt =====
-- A record as the write buffer puts it together: started, filled, closed.
use embedded_tls.Prelude.{
  ℕ, zero, suc, ◌+◌, ◌-◌, ◌≤◌, ◌≡◌, sym, ap, ◌∙◌, Option, some, List, ◌++◌, arith, length,
  length-append, length-take, take, overwrite, length-overwrite, overwrite-append, overwrite-nil,
  min,
}
use embedded_tls.Prelude.Words.{be16}
use embedded_tls.Exec.{ok, bind_ok, ◌>>◌}
use embedded_tls.Buffer.{CryptoBuffer, Write, push_u16, rewind}
use embedded_tls.Buffer.Encodes.{put, Encodes-push_u16}
use embedded_tls.Buffer.Moves.{rewind_lem}
use embedded_tls.Codec.Header.{
  ClientRecordHeader, is_encrypted, trailer_content_type, encode_header-Encodes, length-version,
}
use embedded_tls.Codec.Header
use embedded_tls.WriteBuffer.{
  WriteBuffer, emptied, with_buffer, start_record, append, take_in, space,
}

-- The record so far is `bs`, in an array that was `buf`.
abbrev pub holding : List ℕ → List ℕ → Option ClientRecordHeader → WriteBuffer
holding buf bs h = record { buffer = overwrite buf 0 bs; pos = length bs; current_header = h }

pub WriteBuffer-path :
    {buffer buffer' : List ℕ} {pos pos' : ℕ} (h : Option ClientRecordHeader)
    → buffer ≡ buffer'
    → pos ≡ pos'
    → ◌≡◌ {A = WriteBuffer}
        (record { buffer = buffer; pos = pos; current_header = h })
        (record { buffer = buffer'; pos = pos'; current_header = h })
WriteBuffer-path h p q = λ i. record { buffer = p i; pos = q i; current_header = h }

-- bytes that every record starts with: content type, version, and room for the length
abbrev pub opening : ClientRecordHeader → List ℕ
opening h = Header.bytes h ++ be16 0

pub with_buffer_ok :
    (op : Write (Unit {0})) (w : WriteBuffer) (c : CryptoBuffer)
    → op (record { buf = w.buffer; offset = 0; len = w.pos }) ≡ (ok tt, c)
    → with_buffer op w ≡ (ok tt, record w { buffer = c.buf; pos = c.len })
unfolding with_buffer
with_buffer_ok op w c e = rw e

-- A record is started in an empty write buffer with room for its header.
pub start_record_lem :
    (buf : List ℕ) (h : ClientRecordHeader)
    → 5 ≤ length buf
    → start_record h (emptied buf) ≡ (ok tt, holding buf (opening h) (some h))
unfolding start_record emptied
start_record_lem buf h room =
    let lv = length-version h in
    let b : CryptoBuffer = record { buf = buf; offset = 0; len = 0 } in
    let bs = Header.bytes h in
    let c = put b bs in
    let d = put c (be16 0) in
    with_buffer_ok (Header.encode h >> (push_u16 0 >> rewind))
      (record { buffer = buf; pos = 0; current_header = some h })
      (record { buf = d.buf; offset = 0; len = d.len + d.offset })
      (bind_ok (Header.encode h) (λ _. push_u16 0 >> rewind)
          ((encode_header-Encodes h).fits b (omega arith))
        ∙ bind_ok (push_u16 0) (λ _. rewind)
            ((Encodes-push_u16 0).fits c (omega (arith, length-overwrite buf 0 bs)))
        ∙ rewind_lem d)
    ∙ ap (λ c. (ok tt, c))
        (WriteBuffer-path (some h)
          (overwrite-append buf 0 (0 + (0 + length bs)) bs (be16 0) (omega arith))
          (omega (arith, length-append bs (be16 0))))

space_lem :
    (w : WriteBuffer)
    → w.pos + 128 ≤ length w.buffer
    → space w ≡ (ok (length w.buffer - 128 - w.pos), w)
unfolding space
space_lem w h = ground arith

take_in_lem :
    (p : List ℕ) (k : ℕ) (w : WriteBuffer)
    → k ≤ length p
    → w.pos + k ≤ length w.buffer
    → take_in p k w
      ≡ (ok k, record w { buffer = overwrite w.buffer w.pos (take k p); pos = w.pos + k })
unfolding take_in
take_in_lem p zero w h fit =
    ap (λ c. (ok 0, c))
      (WriteBuffer-path w.current_header (sym (overwrite-nil w.buffer w.pos)) (omega arith))
take_in_lem p (suc k) w h fit = ground (arith, length-take (suc k) p)

-- how many bytes of `p` fit behind `bs`
abbrev pub fitting : List ℕ → List ℕ → List ℕ → ℕ
fitting buf bs p = min (length p) (length buf - 128 - length bs)

-- Behind a record that leaves the overhead of 128 bytes free, `append` takes as many bytes of
-- its argument as there are or as fit in front of the overhead, whichever is less, returns
-- their number, and puts them behind the record.
pub append-holding :
    (buf bs p : List ℕ) (h : Option ClientRecordHeader)
    → length bs + 128 ≤ length buf
    → let k = fitting buf bs p in
      append p (holding buf bs h) ≡ (ok k, holding buf (bs ++ take k p) h)
unfolding append
append-holding buf bs p h room =
    let w = holding buf bs h in
    let k = fitting buf bs p in
    let same = length-overwrite buf 0 bs in
    rw (bind_ok space (λ n. take_in p (min (length p) n)) (space_lem w (omega arith)), same)
      (take_in_lem p k w (omega arith) (omega arith)
        ∙ ap (λ c. (ok k, c))
            (WriteBuffer-path h (overwrite-append buf 0 (length bs) bs (take k p) (omega arith))
              (omega (arith, length-append bs (take k p), length-take k p))))
