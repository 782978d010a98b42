-- ===== src/RecordReader/Whole.antt =====
-- One record is read whole, however the transport cuts the bytes.
use embedded_tls.Prelude.{
  ℕ, ◌+◌, ◌-◌, ◌≤◌, ◌≡◌, refl, ap, ◌∙◌, inl, inr, some, List, [], ◌∷◌, ◌++◌, arith, length,
  length-drop, take, drop, overwrite, length-overwrite, drop_front-overwrite, take-overwrite,
  lt_or_le, lt→ltb, le→leb, le→ltb_false,
}
use embedded_tls.Exec.{Result, ok, Exec, pure, ◌>>=◌}
use embedded_tls.Error.{TlsError}
use embedded_tls.Codec.ContentType.{ContentType, of_code}
use embedded_tls.Codec.Header.{RecordHeader, content_length, decode}
use embedded_tls.RecordReader.{
  RecordReader, next_record_header, ensure_contiguous, advance, consume, read, on_transport,
}
use embedded_tls.RecordReader.Framing.{Delivers, fill_header_lem}
use embedded_tls.RecordReader.Receive.{taken, receive_lem}

abbrev pub header_bytes : RecordHeader → List ℕ
header_bytes h = h.b0 ∷ h.b1 ∷ h.b2 ∷ h.b3 ∷ h.b4 ∷ []

-- Between two records: nothing is pending, and what is decoded lies inside the array.
pub record Idle (r : RecordReader) : Type 0 where
  pub nothing : r.pending ≡ 0
  pub inside : r.decoded ≤ length r.buf

-- A record was read: `read` returned its header and its payload, the reader is idle again on an array of
-- the same length, and the transport has the rest of the bytes to give.
pub record Delivered {T : Type 0} (incoming : T → List ℕ) (h : RecordHeader) (r : RecordReader)
    (payload rest : List ℕ) (out : Result TlsError (RecordHeader × List ℕ) × (RecordReader × T))
    : Type 0 where
  pub returned : out.0 ≡ ok (h, payload)
  pub idle : Idle out.1.0
  pub same_array : length out.1.0.buf ≡ length r.buf
  pub left : incoming out.1.1 ≡ rest

decode_lem : (h : RecordHeader) (ty : ContentType) → of_code h.b0 ≡ some ty → decode h ≡ ok h
unfolding decode
decode_lem h ty known = rw (decode, known)

module _ {T : Type 0} {read_some : ℕ → Exec T ℕ (List ℕ)} {incoming : T → List ℕ}
    (d : Delivers read_some incoming) where
  next_record_header_lem :
      (h : RecordHeader) (ty : ContentType) (t : T) (rest : List ℕ)
      → of_code h.b0 ≡ some ty
      → incoming t ≡ header_bytes h ++ rest
      → (t' : T) × (next_record_header read_some t ≡ (ok h, t')) × (incoming t' ≡ rest)
  unfolding next_record_header ◌>>=◌
  next_record_header_lem h ty t rest known whole =
      let (t', run, rest_is) =
        fill_header_lem d 5 [] (header_bytes h) rest t refl (omega arith) whole in
      (t', rw (run) (ap (λ x. (x, t')) (decode_lem h ty known)), rest_is)

  -- Room is made at the front of the array where there is none behind what is decoded.
  ensure_contiguous_lem :
      (n : ℕ) (r : RecordReader) (t : T)
      → Idle r
      → n ≤ length r.buf
      → (r' : RecordReader) × (ensure_contiguous read_some n (r, t) ≡ (ok tt, (r', t)))
        × (r'.pending ≡ 0)
        × (r'.decoded + n ≤ length r'.buf)
        × (length r'.buf ≡ length r.buf)
  unfolding ensure_contiguous
  ensure_contiguous_lem n r t idle fits = elim (lt_or_le (length r.buf) (r.decoded + n)) [
    | inl over ↦ (
      record r { buf = overwrite r.buf 0 (take r.pending (drop r.decoded r.buf)); decoded = 0 },
      (let at_end = idle.inside in
          let none_left = idle.nothing in
          rw (
            lt→ltb (length r.buf) (r.decoded + n) over,
            le→ltb_false (length r.buf) n fits,
            le→leb (r.decoded + r.pending) (length r.buf) (omega arith),
          )),
      idle.nothing,
      omega (arith, length-overwrite r.buf 0 (take r.pending (drop r.decoded r.buf))),
      length-overwrite r.buf 0 (take r.pending (drop r.decoded r.buf)),
    )
    | inr room ↦
        (r, rw (le→ltb_false (length r.buf) (r.decoded + n) room), idle.nothing, room, refl)
  ]

  consume_lem :
      (h : RecordHeader) (r : RecordReader) (t : T) (payload : List ℕ)
      → r.pending ≡ 0
      → length payload ≡ content_length h
      → r.decoded + length payload ≤ length r.buf
      → consume read_some h (taken r payload, t) ≡ (
        ok payload,
        (
          record (taken r payload) {
            decoded = r.decoded + content_length h;
            pending = r.pending + length payload - content_length h;
          },
          t,
        ),
      )
  unfolding consume
  consume_lem h r t payload idle size room =
      let n = content_length h in
      let written = overwrite r.buf (r.decoded + r.pending) payload in
      let same = length-overwrite r.buf (r.decoded + r.pending) payload in
      rw
        (
          le→leb (r.decoded + n) (length written) (omega (arith, same)),
          le→leb n (r.pending + length payload) (omega arith),
        )
        (ap
          (λ x. (
            ok x,
            (
              record (taken r payload) {
                decoded = r.decoded + n;
                pending = r.pending + length payload - n;
              },
              t,
            ),
          ))
          (ap (take n)
              (drop_front-overwrite r.buf r.decoded 0 (r.decoded + r.pending) payload (omega arith))
            ∙ take-overwrite (drop r.decoded r.buf) 0 n payload
                (omega (arith, length-drop r.decoded r.buf)) (omega arith)))

  -- Where the reader has nothing pending and the bytes that the transport has to give start
  -- with a header of a known content type and a payload of the announced length, which is no
  -- longer than the array, `read` returns that header and exactly that payload, however the
  -- transport cuts the bytes into chunks that are not empty; it never panics. The reader is
  -- then again without pending bytes, on an array of the same length, and the transport has
  -- exactly the bytes behind the payload left.
  pub read-Delivered :
      (h : RecordHeader) (ty : ContentType) (r : RecordReader) (t : T) (payload rest : List ℕ)
      → Idle r
      → of_code h.b0 ≡ some ty
      → length payload ≡ content_length h
      → length payload ≤ length r.buf
      → incoming t ≡ header_bytes h ++ (payload ++ rest)
      → Delivered incoming h r payload rest (read read_some (r, t))
  unfolding read advance on_transport pure ◌>>=◌
  read-Delivered h ty r t payload rest idle known size fits whole =
      let n = content_length h in
      let (t1, header_run, after_header) =
        next_record_header_lem h ty t (payload ++ rest) known whole in
      let (v, made, none_pending, room, same) = ensure_contiguous_lem n r t1 idle (omega arith) in
      let (t2, filled, rest_is) =
        receive_lem d n n n v t1 payload rest size (omega arith) room (omega arith) after_header in
      let lo = length-overwrite v.buf (v.decoded + v.pending) payload in
      rw (header_run, made, filled, consume_lem h v t2 payload none_pending size (omega arith))
        (record {
          returned = refl;
          idle = record { nothing = omega arith; inside = omega (arith, lo) };
          same_array = lo ∙ same;
          left = rest_is;
        })
