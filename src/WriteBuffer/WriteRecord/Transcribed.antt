-- ===== src/WriteBuffer/WriteRecord/Transcribed.antt =====
-- The records that `write_record` gives to the transport, and what the transcript has got of them.
use embedded_tls.Prelude.{
  ℕ, ◌+◌, ◌≤◌, ◌≡◌, refl, sym, ap, ◌∙◌, true, false, List, [], ◌∷◌, ◌++◌, arith, length, overwrite,
  overwrite_rest,
}
use embedded_tls.Prelude.Words.{be16}
use embedded_tls.Exec.{ok}
use embedded_tls.Heapless.{Heapless}
use embedded_tls.Suite.{Suite}
use embedded_tls.Ecdh.{Ecdh}
use embedded_tls.Buffer.Encodes.{CryptoBuffer-path}
use embedded_tls.Codec.ContentType
use embedded_tls.Codec.Alert
use embedded_tls.Codec.Alert.{Alert}
use embedded_tls.Codec.Header.{is_encrypted, trailer_content_type, version, header_content_type}
use embedded_tls.KeySchedule.{KeyScheduleState, get_nonce}
use embedded_tls.KeySchedule.Secrets.{KeySchedule, WriteKeySchedule}
use embedded_tls.Handshake.ClientHello as Hello
use embedded_tls.Handshake.ClientHello.{ClientHello}
use embedded_tls.Handshake.ClientHello.Transcript.{finalize-transcript}
use embedded_tls.ClientRecord.{
  ClientHandshake, client_hello, ClientRecord, handshake, alert, header,
}
use embedded_tls.ClientRecord.Finish.{
  finish_record-encrypted, finish_record-hello, finish_record-alert,
}
use embedded_tls.ClientRecord.Encoded.{handshake_bytes, IsEncodable}
use embedded_tls.WriteBuffer.{WriteBuffer, emptied, close_record}
use embedded_tls.WriteBuffer.Record.{opening}
use embedded_tls.WriteBuffer.Send.{outer, close_sealed, close_plain}
use embedded_tls.WriteBuffer.WriteRecord.{close_with_keys, write_record}
use embedded_tls.WriteBuffer.WriteRecord.Sent.{
  finished_with, write_record_lem, as_slice-behind, length-opening,
}

pub close_with_keys_lem :
    (c : Suite) (ks : KeySchedule c) (w w' : WriteBuffer) (bs : List ℕ)
    → close_record c.aead ks.client_state.state w ≡ (ok bs, w')
    → close_with_keys c (w, ks) ≡ (ok bs, (w', ks))
unfolding close_with_keys
close_with_keys_lem c ks w w' bs p = rw p

-- The payload `p` with the content type `t` behind it, sealed, behind the header that says so.
abbrev pub sealed_record : Suite → KeyScheduleState → List ℕ → ℕ → List ℕ → List ℕ
sealed_record c keys nonce t p =
    let q = p ++ (t ∷ []) in
    let front = outer (length q + c.aead.tag_size) in front ++ c.aead.seal keys.key nonce front q

module _ (c : Suite) (ks : KeySchedule c) where
  abbrev pub transcript : c.digest.State
  transcript = ks.server_state.transcript_hash

module _ ⦃h : Heapless⦄ (c : Suite) {e : Ecdh} (buf : List ℕ) (ks : KeySchedule c) where
  -- An encrypted handshake message, with no raw public key in it, that `write_record` puts
  -- into an empty write buffer with room comes out sealed under the key and the nonce of the
  -- key schedule, the encoded message with the content type 22 behind it, with the outer
  -- header as additional data; the transcript is updated with exactly the encoded message, and
  -- the write buffer is empty again.
  pub write_record-encrypted :
      (m : ClientHandshake e) (nonce : List ℕ)
      → IsEncodable c m
      → get_nonce ks.client_state.state ≡ ok nonce
      → let p = handshake_bytes c m in
        6 + length p + c.aead.tag_size ≤ length buf
        → length p + 1 ≤ c.aead.max_plain
        → let bytes = sealed_record c ks.client_state.state nonce 22 p in
          write_record c true (handshake m true) (emptied buf, ks) ≡ (
            ok bytes,
            (
              emptied (overwrite buf 0 bytes),
              finished_with ks (c.digest.update (transcript c ks) p) ks.client_state,
            ),
          )
  unfolding header is_encrypted trailer_content_type ContentType.as_u8 version header_content_type
  write_record-encrypted m nonce encodable known room small =
      let p = handshake_bytes c m in
      let r : ClientRecord e = handshake m true in
      write_record_lem c r buf ks encodable p _ _ (omega arith) (
        finish_record-encrypted c _ p (transcript c ks) ks.client_state
          (as_slice-behind buf (opening (header r)) p (length-opening (header r)) (omega arith)) m)
      ∙ close_with_keys_lem c _ _ _ _ (
          close_sealed c.aead ks.client_state.state (header r) buf p nonce refl known (omega arith)
            small)

  -- Where `ClientHello::finalize` succeeds on the encoded ClientHello, with binders or
  -- without, `write_record` of it into an empty write buffer with room gives exactly the bytes
  -- that it left, behind a handshake header with their length modulo 2^16; the transcript is
  -- updated with exactly these bytes, and the write buffer is empty again.
  pub write_record-client_hello :
      (hello : ClientHello e) (q : List ℕ) (t : c.digest.State) (k : WriteKeySchedule)
      → let p = handshake_bytes c (client_hello hello) in
        5 + length p ≤ length buf
        → Hello.finalize c e hello (p, (transcript c ks, ks.client_state)) ≡ (ok tt, (q, (t, k)))
        → let bytes = 22 ∷ 3 ∷ 1 ∷ (be16 (length q) ++ q) in
          (write_record c true (handshake (client_hello hello) false) (emptied buf, ks)
            ≡ (ok bytes, (emptied (overwrite buf 0 bytes), finished_with ks t k)))
          × (t ≡ c.digest.update (transcript c ks) q)
  unfolding header is_encrypted trailer_content_type ContentType.as_u8 version header_content_type
  write_record-client_hello hello q t k room runs =
      let p = handshake_bytes c (client_hello hello) in
      let r : ClientRecord e = handshake (client_hello hello) false in
      let five = length-opening (header r) in
      let fin =
        finalize-transcript c e hello (p, (transcript c ks, ks.client_state))
          (ap (λ o. o.0) runs) in
      let same : length q ≡ length p = ap (λ o. length o.1.0) (sym runs) ∙ fin.0 in
      (
        write_record_lem c r buf ks tt q t k room (
              finish_record-hello c _ p (transcript c ks) ks.client_state
                (as_slice-behind buf (opening (header r)) p five room) hello q t k runs
              ∙ ap (λ b. (ok tt, (b, (t, k))))
                  (CryptoBuffer-path 5
                    (overwrite_rest buf (opening (header r)) p q 5 (sym five) (omega arith))
                    (sym same)))
            ∙ close_with_keys_lem c _ _ _ _
                (close_plain c.aead k.state (header r) buf q 22 3 1 refl refl (omega arith)),
        ap (λ o. o.1.1.0) (sym runs)
            ∙ fin.1
            ∙ ap (λ o. c.digest.update (transcript c ks) o.1.0) runs,
      )

module _ ⦃h : Heapless⦄ (c : Suite) (e : Ecdh) (buf : List ℕ) (ks : KeySchedule c) where
  pub write_record-alert :
      (a : Alert) (nonce : List ℕ)
      → get_nonce ks.client_state.state ≡ ok nonce
      → 8 + c.aead.tag_size ≤ length buf
      → 3 ≤ c.aead.max_plain
      → let bytes = sealed_record c ks.client_state.state nonce 21 (Alert.bytes a) in
        write_record c {e = e} true (alert a true) (emptied buf, ks)
        ≡ (ok bytes, (emptied (overwrite buf 0 bytes), ks))
  unfolding header is_encrypted trailer_content_type ContentType.as_u8 version header_content_type
  write_record-alert a nonce known room small =
      let p = Alert.bytes a in
      let r : ClientRecord e = alert a true in
      write_record_lem c r buf ks tt p _ _ (omega arith) (finish_record-alert c e a true _ _)
      ∙ close_with_keys_lem c _ _ _ _ (
          close_sealed c.aead ks.client_state.state (header r) buf p nonce refl known (omega arith)
            small)

  pub write_record-plain_alert :
      (a : Alert)
      → 7 ≤ length buf
      → let bytes = 20 ∷ 3 ∷ 1 ∷ 0 ∷ 2 ∷ Alert.bytes a in
        write_record c {e = e} true (alert a false) (emptied buf, ks)
        ≡ (ok bytes, (emptied (overwrite buf 0 bytes), ks))
  unfolding header is_encrypted trailer_content_type ContentType.as_u8 version header_content_type
  write_record-plain_alert a room =
      let p = Alert.bytes a in
      let r : ClientRecord e = alert a false in
      write_record_lem c r buf ks tt p _ _ (omega arith) (finish_record-alert c e a false _ _)
      ∙ close_with_keys_lem c _ _ _ _
          (close_plain c.aead ks.client_state.state (header r) buf p 20 3 1 refl refl (omega arith))
