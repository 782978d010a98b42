-- ===== src/WriteBuffer/Send.antt =====
-- A record that is started, filled and closed.
use embedded_tls.Prelude.{
  ℕ, ◌+◌, ◌≤◌, ◌≡◌, refl, sym, ap, ap₂, ◌∙◌, true, false, Option, none, some, List, [], ◌∷◌, ◌++◌,
  arith, length, length-append, append-nil, take, take-append, overwrite,
}
use embedded_tls.Prelude.Words.{be16}
use embedded_tls.Exec.{ok, bind_ok, pure, ◌>>◌}
use embedded_tls.Aead.{Aead}
use embedded_tls.KeySchedule.{KeyScheduleState, get_nonce}
use embedded_tls.Codec.ContentType
use embedded_tls.Codec.Header.{
  ClientRecordHeader, handshake, alert, application_data, is_encrypted, version,
  header_content_type, trailer_content_type, length-version,
}
use embedded_tls.Codec.Header
use embedded_tls.WriteBuffer.{
  emptied, with_buffer, start_record, append, close_record, write_length, emit, take_header,
  additional_data, protect,
}
use embedded_tls.WriteBuffer.Record.{
  holding, opening, fitting, append-holding, start_record_lem, with_buffer_ok,
}
use embedded_tls.WriteBuffer.Close.{whole, sealed, protect_lem, write_length_lem, emit_lem}

-- The content type, the version and the length that stand in front of an encrypted record.
abbrev pub outer : ℕ → List ℕ
outer n = 23 ∷ 3 ∷ 3 ∷ be16 n

-- what the start of an encrypted record holds before the length is known
pub opening_encrypted : (h : ClientRecordHeader) → is_encrypted h ≡ true → opening h ≡ outer 0
unfolding is_encrypted version header_content_type ContentType.as_u8
opening_encrypted (handshake true) e = refl
opening_encrypted (handshake false) e = cc
opening_encrypted (alert true) e = refl
opening_encrypted (alert false) e = cc
opening_encrypted application_data e = refl

-- Where the payload becomes `s`, the record is closed with the length of `s`.
close_record_lem :
    (aead : Aead) (keys : KeyScheduleState) (h : ClientRecordHeader) (buf p s : List ℕ)
    (a b c d e : ℕ)
    → let front = a ∷ b ∷ c ∷ d ∷ e ∷ [] in
      protect aead keys h (whole buf front p) ≡ (ok tt, whole buf front s)
      → 5 + length s ≤ length buf
      → let bytes = a ∷ b ∷ c ∷ (be16 (length s) ++ s) in
        close_record aead keys (holding buf (front ++ p) (some h))
        ≡ (ok bytes, emptied (overwrite buf 0 bytes))
unfolding close_record take_header emptied
close_record_lem aead keys h buf p s a b c d e step room =
    let front : List ℕ = a ∷ b ∷ c ∷ d ∷ e ∷ [] in
    bind_ok (with_buffer (protect aead keys h)) (λ _. write_length >> emit)
      (with_buffer_ok (protect aead keys h) (holding buf (front ++ p) none) (whole buf front s)
        step)
    ∙ bind_ok write_length (λ _. emit) (write_length_lem a b c d e buf s room)
    ∙ emit_lem a b c d e buf s room

-- Plaintext that fits is taken in whole.
pub append_whole :
    (buf bs p : List ℕ) (h : Option ClientRecordHeader)
    → length bs + length p + 128 ≤ length buf
    → append p (holding buf bs h) ≡ (ok (length p), holding buf (bs ++ p) h)
append_whole buf bs p h room =
    let all : fitting buf bs p ≡ length p = omega arith in
    append-holding buf bs p h (omega arith)
    ∙ ap (λ k. (ok k, holding buf (bs ++ take k p) h)) all
    ∙ ap (λ t. (ok (length p), holding buf (bs ++ t) h))
        (ap (take (length p)) (sym (append-nil p)) ∙ take-append p [])

module _ (aead : Aead) (keys : KeyScheduleState) (h : ClientRecordHeader) (buf p : List ℕ) where
  to_close :
      133 + length p ≤ length buf
      → (start_record h >> (append p >> close_record aead keys)) (emptied buf)
        ≡ close_record aead keys (holding buf (opening h ++ p) (some h))
  to_close room =
      let lv = length-version h in
      let lo = length-append (Header.bytes h) (be16 0) in
      bind_ok (start_record h) (λ _. append p >> close_record aead keys)
        (start_record_lem buf h (omega arith))
      ∙ bind_ok (append p) (λ _. close_record aead keys)
          (append_whole buf (opening h) p (some h) (omega (arith, lv, lo)))

  sealed-outer :
      (nonce q : List ℕ)
      → sealed aead keys nonce q ≡ aead.seal keys.key nonce (outer (length q + aead.tag_size)) q
  unfolding ContentType.as_u8
  sealed-outer nonce q =
      ap₂ (λ u l. aead.seal keys.key nonce (23 ∷ 3 ∷ 3 ∷ u ∷ l ∷ []) q) (omega arith) (omega arith)

  -- a record that holds its payload is closed sealed
  pub close_sealed :
      (nonce : List ℕ)
      → is_encrypted h ≡ true
      → get_nonce keys ≡ ok nonce
      → 6 + length p + aead.tag_size ≤ length buf
      → length p + 1 ≤ aead.max_plain
      → let q = p ++ (ContentType.as_u8 (trailer_content_type h) ∷ []) in
        let front = outer (length q + aead.tag_size) in
        let bytes = front ++ aead.seal keys.key nonce front q in
        close_record aead keys (holding buf (opening h ++ p) (some h))
        ≡ (ok bytes, emptied (overwrite buf 0 bytes))
  close_sealed nonce enc known room small =
      let t = ContentType.as_u8 (trailer_content_type h) in
      let q = p ++ (t ∷ []) in
      let s = sealed aead keys nonce q in
      let lq = length-append p (t ∷ []) in
      let extra = additional_data aead keys (length q + aead.tag_size) in
      let ls = aead.length-seal keys.key nonce extra q in
      ap (λ o. close_record aead keys (holding buf (o ++ p) (some h))) (opening_encrypted h enc)
      ∙ close_record_lem aead keys h buf p s 23 3 3 0 0
          (protect_lem buf (outer 0) refl aead keys nonce known h p enc (omega (arith, lq))
            (omega (arith, lq)))
          (omega (arith, lq, ls))
      ∙ ap₂ (λ n r. (ok (outer n ++ r), emptied (overwrite buf 0 (outer n ++ r)))) ls
          (sealed-outer nonce q)

  -- and one with an unencrypted header as it is
  pub close_plain :
      (a b c : ℕ)
      → Header.bytes h ≡ a ∷ b ∷ c ∷ []
      → is_encrypted h ≡ false
      → 5 + length p ≤ length buf
      → let bytes = a ∷ b ∷ c ∷ (be16 (length p) ++ p) in
        close_record aead keys (holding buf (opening h ++ p) (some h))
        ≡ (ok bytes, emptied (overwrite buf 0 bytes))
  unfolding protect pure
  close_plain a b c known plain room =
      ap (λ o. close_record aead keys (holding buf ((o ++ be16 0) ++ p) (some h))) known
      ∙ close_record_lem aead keys h buf p p a b c 0 0 (rw plain) (omega arith)

  -- A record with an encrypted header that is started in an empty write buffer, filled with a
  -- payload and closed comes out as the outer header (content type 23, version 3 3, the length
  -- of the sealed text modulo 2^16) and the sealed text: the payload with the content type
  -- behind it, sealed under the key and the nonce of the key schedule with exactly that outer
  -- header as additional data. The write buffer is then empty again. It needs a nonce, a tag
  -- of at most 127 bytes, an array of 133 bytes more than the payload, and a cipher that takes
  -- a text of the length of the payload and one byte.
  pub record_is_sealed :
      (nonce : List ℕ)
      → is_encrypted h ≡ true
      → get_nonce keys ≡ ok nonce
      → aead.tag_size ≤ 127
      → 133 + length p ≤ length buf
      → length p + 1 ≤ aead.max_plain
      → let q = p ++ (ContentType.as_u8 (trailer_content_type h) ∷ []) in
        let front = outer (length q + aead.tag_size) in
        let bytes = front ++ aead.seal keys.key nonce front q in
        (start_record h >> (append p >> close_record aead keys)) (emptied buf)
        ≡ (ok bytes, emptied (overwrite buf 0 bytes))
  record_is_sealed nonce enc known tag room small =
      to_close room ∙ close_sealed nonce enc known (omega arith) small

  plain_record :
      (a b c : ℕ)
      → Header.bytes h ≡ a ∷ b ∷ c ∷ []
      → is_encrypted h ≡ false
      → 133 + length p ≤ length buf
      → let bytes = a ∷ b ∷ c ∷ (be16 (length p) ++ p) in
        (start_record h >> (append p >> close_record aead keys)) (emptied buf)
        ≡ (ok bytes, emptied (overwrite buf 0 bytes))
  plain_record a b c known plain room = to_close room ∙ close_plain a b c known plain (omega arith)

-- A record with an unencrypted header that is started in an empty write buffer, filled with a
-- payload and closed comes out as the content type, the version, the length of the payload
-- modulo 2^16 and the payload, where the array is 133 bytes longer than the payload. The write
-- buffer is then empty again.
pub record_is_plain :
    (aead : Aead) (keys : KeyScheduleState) (h : ClientRecordHeader) (buf p : List ℕ)
    → is_encrypted h ≡ false
    → 133 + length p ≤ length buf
    → let bytes = Header.bytes h ++ (be16 (length p) ++ p) in
      (start_record h >> (append p >> close_record aead keys)) (emptied buf)
      ≡ (ok bytes, emptied (overwrite buf 0 bytes))
unfolding is_encrypted version header_content_type ContentType.as_u8
record_is_plain aead keys (handshake false) buf p e room =
    plain_record aead keys (handshake false) buf p 22 3 1 refl refl room
record_is_plain aead keys (alert false) buf p e room =
    plain_record aead keys (alert false) buf p 20 3 1 refl refl room
record_is_plain aead keys (handshake true) buf p e room = cc
record_is_plain aead keys (alert true) buf p e room = cc
record_is_plain aead keys application_data buf p e room = cc
