-- ===== src/Blocking/Written.antt =====
-- What `write` and `flush` of src/blocking.rs give to the transport.
use embedded_tls.Prelude.{
  ℕ, Bool, ◌+◌, ◌≤◌, ◌<◌, ◌≡◌, refl, sym, ap, subst, ◌∙◌, true, some, List, [], ◌∷◌, ◌++◌, arith,
  length, length-append, append-nil, append_assoc, overwrite, length-overwrite,
}
use mathlib.Core.List.{flat_map}
use embedded_tls.Exec.{
  ok, err, Exec, then_ok, bind_ok, bind_err, pure, gets, map_err, for_each, ◌>>◌,
}
use embedded_tls.Error.{TlsError, io}
use embedded_tls.Heapless.{Heapless}
use embedded_tls.Suite.{Suite}
use embedded_tls.Transport.{Transport}
use embedded_tls.Codec.Header.{application_data, is_encrypted, trailer_content_type}
use embedded_tls.Codec.ContentType
use embedded_tls.KeySchedule.{get_nonce}
use embedded_tls.WriteBuffer.{WriteBuffer, emptied, append, is_full, start_record}
use embedded_tls.WriteBuffer.Record.{holding, opening, start_record_lem}
use embedded_tls.WriteBuffer.Send.{append_whole, close_sealed}
use embedded_tls.WriteBuffer.Full.{
  contains-emptied, contains-holding, is_empty-emptied, is_empty-holding, is_full-holding,
}
use embedded_tls.WriteBuffer.WriteRecord.Sent.{length-opening}
use embedded_tls.WriteBuffer.WriteRecord.Transcribed.{sealed_record, close_with_keys_lem}
use embedded_tls.Blocking.{
  TlsConnection, on_write_buf, on_sending, flush, flush_nonempty, on_delegate, start_data, fill,
  write_opened, write, send_record,
}

module _ ⦃h : Heapless⦄ (c : Suite) (tr : Transport) where
  abbrev pub write_chunk : List ℕ → Exec (TlsConnection c tr) TlsError (Unit {0})
  write_chunk q = write c tr q >> pure tt

module _ ⦃h : Heapless⦄ (c : Suite) (tr : Transport) (buf : List ℕ)
    (conn : TlsConnection c tr) where
  abbrev with_buf : WriteBuffer → TlsConnection c tr
  with_buf w = record conn { record_write_buf = w }

  -- The record of application data is started, and holds `p`.
  abbrev started : List ℕ → TlsConnection c tr
  started p = with_buf (holding buf (opening application_data ++ p) (some application_data))

  on_write_buf_ok :
      {A : Type 0} {w w' : WriteBuffer} {a : A} (m : Exec WriteBuffer TlsError A)
      → m w ≡ (ok a, w')
      → on_write_buf c tr m (with_buf w) ≡ (ok a, with_buf w')
  unfolding on_write_buf
  on_write_buf_ok m p = rw p

  fill_lem :
      (p q : List ℕ)
      → 133 + length (p ++ q) < length buf
      → fill c tr q (started p) ≡ (ok (length q), started (p ++ q))
  unfolding fill pure
  fill_lem p q room =
      let head = opening application_data in
      let o = length-opening application_data in
      then_ok _ _
        (on_write_buf_ok (append q) (
          append_whole buf (head ++ p) q (some application_data)
            (omega (arith, o, length-append head p, length-append p q))
          ∙ ap (λ t. (ok (length q), holding buf t (some application_data)))
              (append_assoc head p q)))
        (then_ok _ _
          (on_write_buf_ok is_full (
            is_full-holding buf (head ++ (p ++ q)) application_data
              (omega (arith, o, length-append head (p ++ q)))))
          (then_ok _ _ refl refl))

  test_lem :
      {b : Bool} (f : TlsConnection c tr → Bool) (w : TlsConnection c tr)
      → f w ≡ b
      → gets {E = TlsError} f w ≡ (ok b, w)
  unfolding gets
  test_lem f w p = ap (λ b. (ok b, w)) p

  write_first :
      (q : List ℕ)
      → conn.opened ≡ true
      → 133 + length q < length buf
      → write c tr q (with_buf (emptied buf)) ≡ (ok (length q), started q)
  unfolding write write_opened start_data flush pure
  write_first q ready room =
      let w = with_buf (emptied buf) in
      then_ok _ _ (test_lem _ w ready) (
        then_ok _ _ (test_lem _ w (contains-emptied buf application_data)) (
          then_ok _ _
            (then_ok _ _ (then_ok _ _ (test_lem _ w (is_empty-emptied buf)) refl) (
              on_write_buf_ok (start_record application_data) (
                start_record_lem buf application_data (omega arith)
                ∙ ap (λ t. (ok tt, holding buf t (some application_data)))
                    (sym (append-nil (opening application_data))))))
            (fill_lem [] q room)))

  write_more :
      (p q : List ℕ)
      → conn.opened ≡ true
      → 133 + length (p ++ q) < length buf
      → write c tr q (started p) ≡ (ok (length q), started (p ++ q))
  unfolding write write_opened pure
  write_more p q ready room =
      let w = started p in
      then_ok _ _ (test_lem _ w ready) (
        then_ok _ _ (test_lem _ w (contains-holding buf (opening application_data ++ p)))
          (then_ok _ _ refl (fill_lem p q room)))

  write_chunks :
      (chunks : List (List ℕ)) (p : List ℕ)
      → conn.opened ≡ true
      → 133 + length (p ++ flat_map (λ q. q) chunks) < length buf
      → for_each (write_chunk c tr) chunks (started p)
        ≡ (ok tt, started (p ++ flat_map (λ q. q) chunks))
  unfolding for_each flat_map pure
  write_chunks [] p ready room = ap (λ t. (ok tt, started t)) (sym (append-nil p))
  write_chunks (q ∷ chunks) p ready room =
      let rest = flat_map (λ q. q) chunks in
      let l = append_assoc p q rest in
      then_ok _ _
        (then_ok (write c tr q) _
          (write_more p q ready (omega (arith, length-append (p ++ q) rest, ap length l))) refl)
        (write_chunks chunks (p ++ q) ready (omega (arith, ap length l))
          ∙ ap (λ t. (ok tt, started t)) l)

  module _ (p nonce : List ℕ) (known : get_nonce conn.key_schedule.client_state.state ≡ ok nonce)
      (room : 6 + length p + c.aead.tag_size ≤ length buf)
      (small : length p + 1 ≤ c.aead.max_plain) where
    abbrev pub data_record : List ℕ
    data_record = sealed_record c conn.key_schedule.client_state.state nonce 23 p

    flush_started :
        flush c tr (started p)
        ≡ send_record c tr data_record (with_buf (emptied (overwrite buf 0 data_record)))
    unfolding flush flush_nonempty on_sending is_encrypted trailer_content_type ContentType.as_u8
    flush_started =
        let w = started p in
        let head = opening application_data in
        then_ok _ _
          (test_lem _ w (
            is_empty-holding buf (head ++ p) application_data
              (omega (arith, length-opening application_data, length-append head p))))
          (bind_ok _ (send_record c tr) (
            rw
              (close_with_keys_lem c conn.key_schedule _ _ _ (
                close_sealed c.aead conn.key_schedule.client_state.state application_data buf p
                  nonce refl known room small))
              refl))

  pub write-flush :
      (p nonce : List ℕ)
      → conn.opened ≡ true
      → conn.record_write_buf ≡ emptied buf
      → get_nonce conn.key_schedule.client_state.state ≡ ok nonce
      → 133 + length p < length buf
      → c.aead.tag_size ≤ 127
      → length p + 1 ≤ c.aead.max_plain
      → let bytes = sealed_record c conn.key_schedule.client_state.state nonce 23 p in
        (write c tr p >> flush c tr) conn
        ≡ send_record c tr bytes
            (record conn { record_write_buf = emptied (overwrite buf 0 bytes) })
  write-flush p nonce ready fresh known room tag small =
      ap (write c tr p >> flush c tr) (ap with_buf fresh)
      ∙ then_ok (write c tr p) _ (write_first p ready room)
          (flush_started p nonce known (omega arith) small)

  -- On an open connection with an empty write buffer, writes of any pieces followed by `flush`
  -- send one record, which seals the pieces one behind the other under the key and the nonce
  -- of the key schedule; the write buffer is then empty. The pieces must leave a byte free in
  -- front of the overhead of 128 bytes and the header, the tag has at most 127 bytes, and the
  -- cipher takes a text of their length and one byte.
  pub writes-flush :
      (chunk : List ℕ) (chunks : List (List ℕ)) (nonce : List ℕ)
      → conn.opened ≡ true
      → conn.record_write_buf ≡ emptied buf
      → get_nonce conn.key_schedule.client_state.state ≡ ok nonce
      → let p = flat_map (λ q. q) (chunk ∷ chunks) in
        133 + length p < length buf
        → c.aead.tag_size ≤ 127
        → length p + 1 ≤ c.aead.max_plain
        → let bytes = sealed_record c conn.key_schedule.client_state.state nonce 23 p in
          (for_each (write_chunk c tr) (chunk ∷ chunks) >> flush c tr) conn
          ≡ send_record c tr bytes
              (record conn { record_write_buf = emptied (overwrite buf 0 bytes) })
  unfolding for_each flat_map pure
  writes-flush chunk chunks nonce ready fresh known room tag small =
      let rest = flat_map (λ q. q) chunks in
      let l = length-append chunk rest in
      ap (for_each (write_chunk c tr) (chunk ∷ chunks) >> flush c tr) (ap with_buf fresh)
      ∙ then_ok (for_each (write_chunk c tr) (chunk ∷ chunks)) _
          (then_ok _ _
            (then_ok (write c tr chunk) _ (write_first chunk ready (omega (arith, l))) refl)
            (write_chunks chunks chunk ready room))
          (flush_started (chunk ++ rest) nonce known (omega arith) small)

module _ ⦃h : Heapless⦄ (c : Suite) (tr : Transport) (conn : TlsConnection c tr)
    (slice : List ℕ) where
  send_record-err :
      (k : ℕ) (t : tr.State)
      → tr.write_all slice conn.delegate ≡ (err k, t)
      → send_record c tr slice conn ≡ (err (io k), record conn { delegate = t })
  unfolding send_record on_delegate map_err
  send_record-err k t p = bind_err _ _ (rw p refl)

module _ ⦃h : Heapless⦄ (c : Suite) (tr : Transport) (buf : List ℕ)
    (conn : TlsConnection c tr) where
  -- Where the transport fails to take the record of a flush, `flush` returns that error, the
  -- text is lost, and the next text that is written and flushed is sealed under the same key
  -- and the same nonce as the lost one, on an open connection with an empty write buffer and
  -- room for both texts.
  pub flush-nonce_reused :
      (first second : List ℕ) (nonce : List ℕ) (k : ℕ) (t : tr.State)
      → conn.opened ≡ true
      → conn.record_write_buf ≡ emptied buf
      → get_nonce conn.key_schedule.client_state.state ≡ ok nonce
      → 133 + length first < length buf
      → 133 + length second < length buf
      → c.aead.tag_size ≤ 127
      → length first + 1 ≤ c.aead.max_plain
      → length second + 1 ≤ c.aead.max_plain
      → let keys = conn.key_schedule.client_state.state in
        tr.write_all (sealed_record c keys nonce 23 first) conn.delegate ≡ (err k, t)
        → let lost = (write c tr first >> flush c tr) conn in
          let next = sealed_record c keys nonce 23 second in
          (lost.0 ≡ err (io k))
          × ((write c tr second >> flush c tr) lost.1
              ≡ send_record c tr next (record lost.1 {
                record_write_buf = emptied (overwrite lost.1.record_write_buf.buffer 0 next);
              }))
  unfolding emptied
  flush-nonce_reused first second nonce k t ready fresh known room1 room2 tag small1 small2 fails =
      let keys = conn.key_schedule.client_state.state in
      let sent = sealed_record c keys nonce 23 first in
      let next = sealed_record c keys nonce 23 second in
      let left = overwrite buf 0 sent in
      let lost =
        write-flush c tr buf conn first nonce ready fresh known room1 tag small1
        ∙ send_record-err c tr (record conn { record_write_buf = emptied left }) sent k t fails in
      subst
        (λ o.
          (o.0 ≡ err (io k))
          × ((write c tr second >> flush c tr) o.1
              ≡ send_record c tr next (record o.1 {
                record_write_buf = emptied (overwrite o.1.record_write_buf.buffer 0 next);
              })))
        (sym lost)
        (
          refl,
          write-flush c tr left (record conn { record_write_buf = emptied left; delegate = t })
              second nonce ready refl known (omega (arith, length-overwrite buf 0 sent)) tag small2,
        )
