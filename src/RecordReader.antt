-- ===== src/RecordReader.antt =====
-- src/record_reader.rs: `RecordReader`, which cuts the bytes of a transport into records. `read` and
-- `read_blocking`, and the functions that they call, have the same text but for `.await`.
-- A transport is what the code relies on of `embedded_io::Read`: `read` is told the length of the slice
-- and gives the bytes that it put there.
pub mod Framing
pub mod Receive
pub mod Whole
pub mod Same
use embedded_tls.Prelude.{
  ℕ, zero, suc, ◌+◌, ◌-◌, Bool, Option, none, some, List, [], ◌∷◌, ◌++◌, length, take, drop,
  overwrite, ltb, leb, ◌==◌, if◌then◌else◌,
}
use embedded_tls.Exec.{
  Result, ok, err, panic, stuck, Exec, pure, raise, gets, map_err, sub, ◌>>=◌, ◌>>◌,
}
use embedded_tls.Error.{TlsError, io, io_error, insufficient_space}
use embedded_tls.Codec.Header.{RecordHeader, content_length, decode}

pub record RecordReader : Type 0 where
  pub buf : List ℕ
  pub decoded : ℕ
  pub pending : ℕ

-- a copy inside the array: `buf.copy_within(start..start + count, 0)`
abbrev moved_to_front : RecordReader → List ℕ
moved_to_front r = overwrite r.buf 0 (take r.pending (drop r.decoded r.buf))

-- `header_of` the array of five bytes
abbrev pub header_of : List ℕ → Option RecordHeader
header_of (b0 ∷ b1 ∷ b2 ∷ b3 ∷ b4 ∷ []) =
    some (record { b0 = b0; b1 = b1; b2 = b2; b3 = b3; b4 = b4 })
header_of _ = none

module _ {T : Type 0} (read_some : ℕ → Exec T ℕ (List ℕ)) where
  -- the loop of `next_record_header`: `got` is the part of the array that is filled
  pub fill_header : ℕ → List ℕ → Exec T TlsError (List ℕ)
  unfolding sub ◌>>=◌
  fill_header zero got t = if length got == 5 then (ok got, t) else (stuck, t)
  fill_header (suc fuel) got t =
      let rest =
        (do
          room ← sub 5 (length got)
          bs ← map_err io (read_some room)
          if length bs == 0 then raise io_error else fill_header fuel (got ++ bs))
          t in
      if length got == 5 then (ok got, t) else rest

  abbrev pub decoded_header : Option RecordHeader → Result TlsError RecordHeader
  decoded_header none = panic
  decoded_header (some h) = decode h

  pub next_record_header : Exec T TlsError RecordHeader
  unfolding ◌>>=◌
  next_record_header = do bs ← fill_header 5 []; λ t. (decoded_header (header_of bs), t)

  abbrev pub Receives : Type 0 → Type 0
  Receives = Exec (RecordReader × T) TlsError

  pub ensure_contiguous : ℕ → Receives (Unit {0})
  ensure_contiguous len (r, t) =
      if ltb (length r.buf) (r.decoded + len)
      then if ltb (length r.buf) len
        then (err insufficient_space, (r, t))
        else if leb (r.decoded + r.pending) (length r.buf)
        then (ok tt, (record r { buf = moved_to_front r; decoded = 0 }, t))
        else (panic, (r, t))
      else (ok tt, (r, t))

  abbrev pub received :
      Result ℕ (List ℕ) → RecordReader → T → Result TlsError (List ℕ) × (RecordReader × T)
  received (ok bs) r t = (ok bs, (record r { buf = overwrite r.buf (r.decoded + r.pending) bs }, t))
  received (err e) r t = (err (io e), (r, t))
  received panic r t = (panic, (r, t))
  received stuck r t = (stuck, (r, t))

  -- `transport.read(&mut buf[*decoded + *pending..][..remain])`
  pub read_into : ℕ → Receives (List ℕ)
  read_into remain (r, t) =
      if leb (r.decoded + r.pending + remain) (length r.buf)
      then (let (res, t') = read_some remain t in received res r t')
      else (panic, (r, t))

  pub add_pending : ℕ → Receives (Unit {0})
  add_pending n (r, t) = (ok tt, (record r { pending = r.pending + n }, t))

  -- the loop of `advance`
  pub receive : ℕ → ℕ → ℕ → Receives (Unit {0})
  unfolding read_into add_pending sub ◌>>=◌
  receive zero amount remain (r, t) =
      if ltb r.pending amount then (stuck, (r, t)) else (ok tt, (r, t))
  receive (suc fuel) amount remain (r, t) =
      let rest =
        (do
          bs ← read_into remain
          if length bs == 0 then raise io_error else (do
            left ← sub remain (length bs)
            add_pending (length bs)
            receive fuel amount left))
          (r, t) in
      if ltb r.pending amount then rest else (ok tt, (r, t))

  pub advance : ℕ → Receives (Unit {0})
  unfolding ◌>>=◌
  advance amount = do ensure_contiguous amount; receive amount amount amount

  -- `consume` up to the slice that `ServerRecord::decode` gets
  pub consume : RecordHeader → Receives (List ℕ)
  consume header (r, t) =
      let n = content_length header in
      if leb (r.decoded + n) (length r.buf)
      then if leb n r.pending
        then (
          ok (take n (drop r.decoded r.buf)),
          (record r { decoded = r.decoded + n; pending = r.pending - n }, t),
        )
        else (panic, (r, t))
      else (panic, (r, t))

  pub on_transport : {A : Type 0} → Exec T TlsError A → Receives A
  on_transport m (r, t) = let (res, t') = m t in (res, (r, t'))

  pub read : Receives (RecordHeader × List ℕ)
  unfolding ◌>>=◌
  read = do
    header ← on_transport next_record_header
    advance (content_length header)
    slice ← consume header
    pure (header, slice)
