-- ===== src/Buffer/Moves.antt =====
-- src/buffer.rs: moving the window. `forward`, an encoder and `rewind`, as `write_record` runs them.
use embedded_tls.Prelude.{
  le→leb, ℕ, ◌+◌, ◌-◌, ◌≤◌, ◌≡◌, refl, ap, ◌∙◌, List, ◌++◌, arith, length, drop, overwrite,
  take-overwrite, length-drop, drop_front-overwrite,
}
use embedded_tls.Exec.{ok, sub, ◌>>=◌, ◌>>◌}
use embedded_tls.Buffer.{
  CryptoBuffer, Write, contents, as_slice, truncate, set_len, move_to, forward, rewind,
  wrap_with_pos,
}
use embedded_tls.Buffer.Encodes.{put, Fits, Encodes, CryptoBuffer-path}

-- The new offset lies inside what was written: the window ends where it ended.
pub move_to_lem :
    (b : CryptoBuffer) (o : ℕ)
    → o ≤ b.offset + b.len
    → move_to o b ≡ (ok tt, record b { offset = o; len = b.len + b.offset - o })
unfolding move_to
move_to_lem b o h = ground arith

pub rewind_lem :
    (b : CryptoBuffer) → rewind b ≡ (ok tt, record b { offset = 0; len = b.len + b.offset })
unfolding rewind
rewind_lem b =
    move_to_lem b 0 (omega arith) ∙ ap (λ c. (ok tt, c)) (CryptoBuffer-path 0 refl (omega arith))

-- On a buffer that starts at offset 0, moving the window behind what is written, running an
-- encoder whose bytes fit, and rewinding appends the bytes of the encoder and changes nothing
-- else.
pub forward-rewind :
    {m : Write (Unit {0})} {bs : List ℕ} (buf : List ℕ) (pos : ℕ)
    → Encodes m bs
    → Fits (wrap_with_pos buf pos) bs
    → (forward >> (m >> rewind)) (wrap_with_pos buf pos) ≡ (ok tt, put (wrap_with_pos buf pos) bs)
unfolding forward wrap_with_pos ◌>>=◌
forward-rewind {m} {bs} buf pos em h =
    let c : CryptoBuffer = record { buf = buf; offset = pos; len = pos + 0 - pos } in
    rw
      (
        move_to_lem (wrap_with_pos buf pos) pos (omega arith),
        em.fits c (omega arith),
        rewind_lem (put c bs),
      )
      (ap (λ c. (ok tt, c))
        (CryptoBuffer-path 0 (ap (λ i. overwrite buf i bs) (omega arith)) (omega arith)))

-- What `put` appends is what the window then shows.
pub contents-put :
    (b : CryptoBuffer) (bs : List ℕ) → Fits b bs → contents (put b bs) ≡ contents b ++ bs
contents-put b bs h = rw (drop_front-overwrite b.buf b.offset b.len (b.offset + b.len) bs refl) (
    take-overwrite (drop b.offset b.buf) b.len (b.len + length bs) bs
      (omega (arith, length-drop b.offset b.buf)) refl)

pub as_slice_lem :
    (b : CryptoBuffer) → b.offset + b.len ≤ length b.buf → as_slice b ≡ (ok (contents b), b)
unfolding as_slice
as_slice_lem b h = ground arith

pub truncate_lem :
    (b : CryptoBuffer) (n : ℕ)
    → b.offset + n ≤ length b.buf
    → truncate n b ≡ (ok tt, record b { len = n })
unfolding truncate set_len sub ◌>>=◌
truncate_lem b n h =
    rw
      (
        le→leb b.offset (length b.buf) (omega arith),
        le→leb n (length b.buf - b.offset) (omega arith),
      )
      refl
