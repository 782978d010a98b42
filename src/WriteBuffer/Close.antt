-- ===== src/WriteBuffer/Close.antt =====
-- What `close_record` makes of the record in the write buffer.
use embedded_tls.Prelude.{
  ℕ, ◌+◌, ◌/◌, ◌%◌, ◌≤◌, ◌≡◌, refl, sym, ap, ap₂, ◌∙◌, true, none, List, [], ◌∷◌, ◌++◌, arith,
  length, length-append, append_assoc, overwrite, length-overwrite, overwrite-append,
  overwrite_rest, overwrite_patch, le→leb, take-drop-overwrite, take-overwrite, le→ltb_false,
}
use embedded_tls.Prelude.Words.{as_u16, be16}
use embedded_tls.Exec.{ok, bind_ok, map_err, sub, ◌>>◌}
use embedded_tls.Error.{TlsError, encode_error}
use embedded_tls.Buffer.{CryptoBuffer, push, capacity, move_to, rewind}
use embedded_tls.Buffer.Encodes.{Encodes-push, Encodes-map_err, CryptoBuffer-path}
use embedded_tls.Buffer.Moves.{rewind_lem, move_to_lem}
use embedded_tls.Aead.{Aead, filled}
use embedded_tls.KeySchedule.{KeyScheduleState, get_nonce}
use embedded_tls.Codec.ContentType
use embedded_tls.Codec.Header.{ClientRecordHeader, is_encrypted, trailer_content_type}
use embedded_tls.WriteBuffer.{
  WriteBuffer, write_length, emit, store, additional_data, encrypt, protect,
}
use embedded_tls.WriteBuffer.Record.{holding, WriteBuffer-path}

-- The buffer that holds `front` and `q`, and its window on `q`.
abbrev pub whole : List ℕ → List ℕ → List ℕ → CryptoBuffer
whole buf front q = record {
  buf = overwrite buf 0 (front ++ q);
  offset = 0;
  len = length (front ++ q);
}

abbrev pub behind : List ℕ → List ℕ → List ℕ → CryptoBuffer
behind buf front q = record { buf = overwrite buf 0 (front ++ q); offset = 5; len = length q }

-- The text `q` sealed, with the additional data that `encrypt` makes of its length.
abbrev pub sealed : Aead → KeyScheduleState → List ℕ → List ℕ → List ℕ
sealed aead keys nonce q =
    aead.seal keys.key nonce (additional_data aead keys (length q + aead.tag_size)) q

module _ (buf front : List ℕ) (five : length front ≡ 5) where
  push_lem :
      (p : List ℕ) (t : ℕ)
      → 6 + length p ≤ length buf
      → map_err (λ _. encode_error) (push t) (whole buf front p)
        ≡ (ok tt, whole buf front (p ++ (t ∷ [])))
  push_lem p t h =
      let q : List ℕ = t ∷ [] in
      (Encodes-map_err (λ _. encode_error) (Encodes-push t)).fits (whole buf front p)
        (omega (arith, length-append front p, length-overwrite buf 0 (front ++ p)))
      ∙ ap (λ c. (ok tt, c))
          (CryptoBuffer-path 0
            (overwrite-append buf 0 (0 + length (front ++ p)) (front ++ p) q refl
              ∙ ap (overwrite buf 0) (append_assoc front p q))
            (omega (arith, length-append front p, length-append p q, length-append front (p ++ q))))

  pub step_behind : (q : List ℕ) → move_to 5 (whole buf front q) ≡ (ok tt, behind buf front q)
  step_behind q =
      move_to_lem (whole buf front q) 5 (omega (arith, length-append front q))
      ∙ ap (λ c. (ok tt, c)) (CryptoBuffer-path 5 refl (omega (arith, length-append front q)))

  pub step_back : (q : List ℕ) → rewind (behind buf front q) ≡ (ok tt, whole buf front q)
  step_back q =
      rewind_lem (behind buf front q)
      ∙ ap (λ c. (ok tt, c)) (CryptoBuffer-path 0 refl (omega (arith, length-append front q)))

  module _ (aead : Aead) (keys : KeyScheduleState) (nonce : List ℕ)
      (known : get_nonce keys ≡ ok nonce) where
    encrypt_lem :
        (q : List ℕ)
        → 5 + length q + aead.tag_size ≤ length buf
        → length q ≤ aead.max_plain
        → encrypt aead keys (behind buf front q)
          ≡ (ok tt, behind buf front (sealed aead keys nonce q))
    unfolding encrypt capacity
    encrypt_lem q h small =
        let cap = length-overwrite buf 0 (front ++ q) in
        let extra = additional_data aead keys (length q + aead.tag_size) in
        let shown = take-drop-overwrite buf front q 5 (sym five) (omega arith) in
        rw
          (
            known,
            cap,
            le→ltb_false (length buf) (length q + aead.tag_size) (omega arith),
            aead.encrypt_in_place_ok keys.key nonce extra (behind buf front q) (omega (arith, cap))
                small,
          )
          (ap (λ t. (ok tt, filled (behind buf front q) (aead.seal keys.key nonce extra t))) shown
            ∙ ap (λ c. (ok tt, c))
                (CryptoBuffer-path 5
                  (overwrite_rest buf front q (sealed aead keys nonce q) 5 (sym five)
                    (omega (arith, aead.length-seal keys.key nonce extra q)))
                  refl))

    pub protect_lem :
        (h : ClientRecordHeader) (p : List ℕ)
        → is_encrypted h ≡ true
        → let q = p ++ (ContentType.as_u8 (trailer_content_type h) ∷ []) in
          5 + length q + aead.tag_size ≤ length buf
          → length q ≤ aead.max_plain
          → protect aead keys h (whole buf front p)
            ≡ (ok tt, whole buf front (sealed aead keys nonce q))
    unfolding protect
    protect_lem h p enc fit small =
        let t = ContentType.as_u8 (trailer_content_type h) in
        let q = p ++ (t ∷ []) in
        rw enc (
          bind_ok (map_err (λ _. encode_error) (push t))
            (λ _. move_to 5 >> (encrypt aead keys >> rewind))
            (push_lem p t (omega (arith, length-append p (t ∷ []))))
          ∙ bind_ok (move_to 5) (λ _. encrypt aead keys >> rewind) (step_behind q)
          ∙ bind_ok (encrypt aead keys) (λ _. rewind) (encrypt_lem q fit small)
          ∙ step_back (sealed aead keys nonce q))

store_lem :
    (start : ℕ) (bs : List ℕ) (w : WriteBuffer)
    → start + length bs ≤ length w.buffer
    → store start bs w ≡ (ok tt, record w { buffer = overwrite w.buffer start bs })
unfolding store
store_lem start bs w h = ground arith

sub_lem : (n k : ℕ) (w : WriteBuffer) → n ≡ 5 + k → sub {E = TlsError} n 5 w ≡ (ok k, w)
unfolding sub
sub_lem n k w e = ground arith

module _ (a b c d e : ℕ) (buf s : List ℕ) (room : 5 + length s ≤ length buf) where
  abbrev pub framed : List ℕ
  framed = a ∷ b ∷ c ∷ (be16 (length s) ++ s)

  pub write_length_lem :
      write_length (holding buf (a ∷ b ∷ c ∷ d ∷ e ∷ s) none) ≡ (ok tt, holding buf framed none)
  unfolding write_length
  write_length_lem =
      let w = holding buf (a ∷ b ∷ c ∷ d ∷ e ∷ s) none in
      let n = length s in
      let x = as_u16 n / 256 in
      let y = as_u16 n % 256 in
      let v : WriteBuffer = record w { buffer = overwrite w.buffer 3 (x ∷ []) } in
      let lw = length-overwrite buf 0 (a ∷ b ∷ c ∷ d ∷ e ∷ s) in
      bind_ok (sub w.pos 5)
        (λ n. store 3 ((as_u16 n / 256) ∷ []) >> store 4 ((as_u16 n % 256) ∷ []))
        (sub_lem w.pos n w (omega arith))
      ∙ bind_ok (store 3 (x ∷ [])) (λ _. store 4 (y ∷ []))
          (store_lem 3 (x ∷ []) w (omega (arith, lw)))
      ∙ store_lem 4 (y ∷ []) v (omega (arith, lw, length-overwrite w.buffer 3 (x ∷ [])))
      ∙ ap (λ c. (ok tt, c))
          (WriteBuffer-path none
            (ap (λ t. overwrite t 4 (y ∷ []))
                (overwrite_patch buf (a ∷ b ∷ c ∷ []) (d ∷ []) (x ∷ []) (e ∷ s) 3 refl refl)
              ∙ overwrite_patch buf (a ∷ b ∷ c ∷ x ∷ []) (e ∷ []) (y ∷ []) s 4 refl refl
              ∙ ap₂ (λ u l. overwrite buf 0 (a ∷ b ∷ c ∷ u ∷ l ∷ s)) (omega arith) (omega arith))
            refl)

  pub emit_lem :
      emit (holding buf framed none)
      ≡ (ok framed, record { buffer = overwrite buf 0 framed; pos = 0; current_header = none })
  unfolding emit
  emit_lem =
      let la = length-overwrite buf 0 framed in
      rw (le→leb (length framed) (length (overwrite buf 0 framed)) (omega (arith, la))) (
        ap (λ t. (ok t, record { buffer = overwrite buf 0 framed; pos = 0; current_header = none }))
          (take-overwrite buf 0 (length framed) framed (omega arith) (omega arith)))
