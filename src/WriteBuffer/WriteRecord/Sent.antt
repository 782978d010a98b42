-- ===== src/WriteBuffer/WriteRecord/Sent.antt =====
-- What `write_record` makes of a record: the bytes that go to the transport, and the transcript.
use embedded_tls.Prelude.{
  ℕ, ◌+◌, ◌≤◌, ◌≡◌, refl, sym, ap, ◌∙◌, true, some, List, [], ◌++◌, arith, length, length-append,
  append-nil, overwrite, length-overwrite, overwrite-append, take-drop-overwrite,
}
use embedded_tls.Prelude.Words.{be16}
use embedded_tls.Exec.{ok, then_ok, pure, on_left_ok, gets}
use embedded_tls.Heapless.{Heapless}
use embedded_tls.Suite.{Suite}
use embedded_tls.Ecdh.{Ecdh}
use embedded_tls.Buffer.{CryptoBuffer, wrap_with_pos, as_slice, forward, rewind, move_to}
use embedded_tls.Buffer.Encodes.{put, CryptoBuffer-path}
use embedded_tls.Buffer.Moves.{as_slice_lem}
use embedded_tls.Codec.Header.{ClientRecordHeader, length-version}
use embedded_tls.Codec.Header
use embedded_tls.KeySchedule.Secrets.{KeySchedule, WriteKeySchedule}
use embedded_tls.ClientRecord.{ClientRecord, header, encode_payload, finish_record}
use embedded_tls.ClientRecord.Encoded.{record_bytes, IsEncodableRecord, encode_payload_lem}
use embedded_tls.WriteBuffer.{emptied, start_record}
use embedded_tls.WriteBuffer.Record.{holding, opening, start_record_lem}
use embedded_tls.WriteBuffer.Close.{whole, behind, step_behind, step_back}
use embedded_tls.WriteBuffer.WriteRecord.{
  with_buffer_and, refuse_open, require_reading, on_halves, close_with_keys, write_payload,
  write_record,
}

-- the key schedule after a record is finished
abbrev pub finished_with :
    {c : Suite} → KeySchedule c → c.digest.State → WriteKeySchedule → KeySchedule c
finished_with ks t k = record ks {
  client_state = k;
  server_state = record ks.server_state { transcript_hash = t };
}

pub length-opening : (h : ClientRecordHeader) → length (opening h) ≡ 5
length-opening h = omega (arith, length-version h, length-append (Header.bytes h) (be16 0))

module _ (buf front p : List ℕ) (five : length front ≡ 5) where
  abbrev start : CryptoBuffer
  start = record { buf = overwrite buf 0 front; offset = 0; len = length front }

  start-whole : start ≡ whole buf front []
  start-whole =
      ap (λ f. record { buf = overwrite buf 0 f; offset = 0; len = length f })
        (sym (append-nil front))

  forward_lem : forward start ≡ (ok tt, behind buf front [])
  unfolding forward
  forward_lem =
      ap (λ n. move_to n start) five ∙ ap (move_to 5) start-whole ∙ step_behind buf front five []

  put-behind : put (behind buf front []) p ≡ behind buf front p
  put-behind =
      CryptoBuffer-path 5
        (overwrite-append buf 0 5 (front ++ []) p (omega (arith, length-append front []))
          ∙ ap (λ f. overwrite buf 0 (f ++ p)) (append-nil front))
        (omega arith)

  pub as_slice-behind :
      5 + length p ≤ length buf → as_slice (behind buf front p) ≡ (ok p, behind buf front p)
  as_slice-behind room =
      as_slice_lem (behind buf front p) (omega (arith, length-overwrite buf 0 (front ++ p)))
      ∙ ap (λ t. (ok t, behind buf front p))
          (take-drop-overwrite buf front p 5 (sym five) (omega (arith, length-append front p)))

module _ ⦃h : Heapless⦄ (c : Suite) {e : Ecdh} (r : ClientRecord e) (buf : List ℕ)
    (ks : KeySchedule c) where
  abbrev payload_bytes : List ℕ
  payload_bytes = record_bytes c r

  -- `finish_record` leaves `q` in the window.
  abbrev pub Finishes : List ℕ → List ℕ → c.digest.State → WriteKeySchedule → Type 0
  Finishes front q t k =
      finish_record c r
        (behind buf front payload_bytes, (ks.server_state.transcript_hash, ks.client_state))
      ≡ (ok tt, (behind buf front q, (t, k)))

  module _ (encodable : IsEncodableRecord c r) (front q : List ℕ) (t : c.digest.State)
      (k : WriteKeySchedule) (five : length front ≡ 5)
      (room : 5 + length payload_bytes ≤ length buf) (finishes : Finishes front q t k) where
    write_payload_lem :
        write_payload c true r (start buf front [] five, ks)
        ≡ (ok tt, (whole buf front q, finished_with ks t k))
    unfolding write_payload require_reading pure on_halves
    write_payload_lem = then_ok _ _ (on_left_ok forward ks (forward_lem buf front [] five)) (
        then_ok _ _
          (on_left_ok (encode_payload c r) ks (
            encode_payload_lem c r (behind buf front []) encodable
              (omega (arith, length-overwrite buf 0 (front ++ [])))
            ∙ ap (λ b. (ok (length payload_bytes), b)) (put-behind buf front payload_bytes five)))
          (then_ok _ _ refl (
            then_ok _ _ (rw finishes refl)
              (on_left_ok rewind (finished_with ks t k) (step_back buf front five q)))))

  -- Where `finish_record` leaves `q` in the window, the record holds `q` and is closed.
  pub write_record_lem :
      IsEncodableRecord c r
      → (q : List ℕ) (t : c.digest.State) (k : WriteKeySchedule)
      → 5 + length payload_bytes ≤ length buf
      → Finishes (opening (header r)) q t k
      → write_record c true r (emptied buf, ks)
        ≡ close_with_keys c
            (holding buf (opening (header r) ++ q) (some (header r)), finished_with ks t k)
  unfolding write_record refuse_open gets pure with_buffer_and emptied wrap_with_pos
  write_record_lem encodable q t k room finishes =
      let front = opening (header r) in
      let five = length-opening (header r) in
      then_ok _ _ refl (
        then_ok _ _ refl (
          then_ok _ _
            (on_left_ok (start_record (header r)) ks
              (start_record_lem buf (header r) (omega arith)))
            (then_ok _ _ (rw (write_payload_lem encodable front q t k five room finishes) refl)
              refl)))
