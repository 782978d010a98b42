-- ===== src/Blocking/Read/Window.antt =====
-- The window of decrypted bytes of src/blocking.rs: it stays inside the read buffer.
use embedded_tls.Prelude.{
  ℕ, zero, suc, ◌≡◌, refl, ◌∙◌, Bool, Bool, true, false, List, arith, length, length-overwrite,
  ◌==◌, if◌then◌else◌,
}
use embedded_tls.Exec.{
  Result, ok, err, panic, stuck, Exec, pure, raise, gets, continue, on_left, on_right, ◌>>=◌,
}
use embedded_tls.Error.{TlsError}
use embedded_tls.Heapless.{Heapless}
use embedded_tls.Suite.{Suite}
use embedded_tls.Transport.{Transport}
use embedded_tls.Codec.Header.{RecordHeader}
use embedded_tls.KeySchedule.Secrets.{ReadKeySchedule}
use embedded_tls.ReadBuffer.{DecryptedBufferInfo, info_is_empty}
use embedded_tls.ReadBuffer.Stream.{InfoIsValid, deliver-Delivered, info_is_empty-InfoIsValid}
use embedded_tls.RecordReader.{RecordReader}
use embedded_tls.RecordReader
use embedded_tls.RecordReader.Same.{SameLength-read}
use embedded_tls.ServerRecord.{ServerRecord, application_data, decode_record}
use embedded_tls.Connection.{decrypt_record}
use embedded_tls.Connection.Handing.{decrypt_record-handed}
use embedded_tls.Connection.Receive.{read_record, on_transcript}
use embedded_tls.Connection.ReadHandler.{handle-InfoIsValid}
use embedded_tls.Blocking.{TlsConnection, Connected}
use embedded_tls.Blocking.Read.{
  Source, record_start, opened_in_place, handle_in_place, next_record, decrypt_into,
  read_application_data, on_decrypted, fill_decrypted, read_buffered, deliver_into, read,
}

InfoIsValid-length :
    (xs ys : List ℕ) (i : DecryptedBufferInfo)
    → length ys ≡ length xs
    → InfoIsValid xs i
    → InfoIsValid ys i
InfoIsValid-length xs ys i p v = record { inside = omega (arith, v.inside); behind = v.behind }

opened_in_place-length :
    (r : RecordReader) (rec : ServerRecord) → length (opened_in_place r rec).buf ≡ length r.buf
unfolding opened_in_place
opened_in_place-length r (application_data a) = length-overwrite r.buf _ a.contents.buf
opened_in_place-length r _ = refl

module _ ⦃h : Heapless⦄ (c : Suite) where
  -- what the callback keeps
  abbrev SourceIsValid : List ServerRecord → ReadKeySchedule c → Source → Type 0
  SourceIsValid log k (r, (i, o)) = InfoIsValid r.buf i

  decrypt_record-SourceIsValid :
      (rec : ServerRecord) (k : ReadKeySchedule c) (x : Source)
      → InfoIsValid x.0.buf x.1.0
      → let out = decrypt_record c (handle_in_place c) rec (k, x) in
        InfoIsValid out.1.1.0.buf out.1.1.1.0
  unfolding handle_in_place
  decrypt_record-SourceIsValid rec k x v =
      decrypt_record-handed c (handle_in_place c) SourceIsValid (λ log k k' x p v. v) keeps rec k x
        v
    where
      keeps :
          (rec : ServerRecord) (log : List ServerRecord) (k : ReadKeySchedule c) (x : Source)
          → InfoIsValid x.0.buf x.1.0
          → let out = handle_in_place c rec (k, x) in InfoIsValid out.1.1.0.buf out.1.1.1.0
      keeps rec log k (r, s) v =
          InfoIsValid-length r.buf _ _ (opened_in_place-length r rec)
            (handle-InfoIsValid r.buf (record_start r rec) rec s v)

  read_record-length :
      {T : Type 0} (read_some : ℕ → Exec T ℕ (List ℕ)) (r : RecordReader) (t : T)
      (k : ReadKeySchedule c)
      → length (read_record c read_some ((r, t), k)).1.0.0.buf ≡ length r.buf
  unfolding read_record on_left on_right ◌>>=◌
  read_record-length {T} read_some r t k =
      go (RecordReader.read read_some (r, t)).0 (RecordReader.read read_some (r, t)).1
      ∙ (SameLength-read read_some).at r t
    where
      go :
          (res : Result TlsError (RecordHeader × List ℕ)) (s : RecordReader × T)
          → length
              (continue {S = (RecordReader × T) × ReadKeySchedule c} res
                (λ x. on_right (on_transcript c (decode_record c.digest x.0 x.1)))
                (s, k)).1.0.0.buf
            ≡ length s.0.buf
      go (ok a) s = refl
      go (err _) s = refl
      go panic s = refl
      go stuck s = refl

module _ ⦃h : Heapless⦄ (c : Suite) (tr : Transport) where
  abbrev pub WindowIsValid : TlsConnection c tr → Type 0
  WindowIsValid s = InfoIsValid s.record_reader.buf s.decrypted

  -- The window lies inside the read buffer behind the action too, whatever comes of it.
  pub record Keeps {A : Type 0} (m : Connected c tr A) : Type 0 where
    pub at : (s : TlsConnection c tr) → WindowIsValid s → WindowIsValid (m s).1

  Keeps-bind :
      {A B : Type 0} {m : Connected c tr A} {f : A → Connected c tr B}
      → Keeps m
      → ((a : A) → Keeps (f a))
      → Keeps (m >>= f)
  unfolding ◌>>=◌
  Keeps-bind {A} {B} {m} {f} p q = record { at = λ s v. go (m s).0 (m s).1 (p.at s v) }
    where
      go :
          (res : Result TlsError A) (s : TlsConnection c tr)
          → WindowIsValid s
          → WindowIsValid (continue res f s).1
      go (ok a) s v = (q a).at s v
      go (err _) s v = v
      go panic s v = v
      go stuck s v = v

  Keeps-if :
      {A : Type 0} {m n : Connected c tr A} (b : Bool)
      → Keeps m
      → Keeps n
      → Keeps (if b then m else n)
  Keeps-if true p q = p
  Keeps-if false p q = q

  -- where only the result is other
  Keeps-same : {A : Type 0} (r : Result TlsError A) → Keeps (λ s. (r, s))
  Keeps-same r = record { at = λ s v. v }

  Keeps-next_record : Keeps (next_record c tr)
  unfolding next_record
  Keeps-next_record = record {
    at = λ s v.
        InfoIsValid-length s.record_reader.buf _ s.decrypted
          (read_record-length c tr.read_some s.record_reader s.delegate s.key_schedule.server_state)
          v;
  }

  Keeps-decrypt_into : (rec : ServerRecord) → Keeps (decrypt_into c tr rec)
  unfolding decrypt_into
  Keeps-decrypt_into rec = record {
    at = λ s v.
        decrypt_record-SourceIsValid c rec s.key_schedule.server_state
          (s.record_reader, (s.decrypted, s.opened)) v;
  }

  Keeps-is_empty : Keeps (on_decrypted c tr info_is_empty)
  unfolding on_decrypted
  Keeps-is_empty = record {
    at = λ s v. info_is_empty-InfoIsValid s.record_reader.buf s.decrypted v;
  }

  Keeps-fill_decrypted : (rounds : ℕ) → Keeps (fill_decrypted c tr rounds)
  unfolding fill_decrypted read_application_data pure
  Keeps-fill_decrypted zero =
      Keeps-bind Keeps-is_empty (λ empty. Keeps-if empty (Keeps-same stuck) (Keeps-same (ok tt)))
  Keeps-fill_decrypted (suc rounds) =
      let rest =
        Keeps-bind (Keeps-bind Keeps-next_record Keeps-decrypt_into)
          (λ _. Keeps-fill_decrypted rounds) in
      Keeps-bind Keeps-is_empty (λ empty. Keeps-if empty rest (Keeps-same (ok tt)))

  Keeps-deliver_into : (buf : List ℕ) → Keeps (deliver_into c tr buf)
  unfolding deliver_into
  Keeps-deliver_into buf = record {
    at = λ s v. (deliver-Delivered s.record_reader.buf buf s.decrypted v).valid;
  }

  Keeps-read_buffered : (rounds : ℕ) → Keeps (read_buffered c tr rounds)
  unfolding read_buffered gets raise
  Keeps-read_buffered rounds =
      Keeps-bind (record { at = λ s v. v })
        (λ is_opened. Keeps-if is_opened (Keeps-fill_decrypted rounds) (Keeps-same _))

  Keeps-read : (rounds : ℕ) (buf : List ℕ) → Keeps (read c tr rounds buf)
  unfolding read pure
  Keeps-read rounds buf =
      Keeps-if (length buf == 0) (Keeps-same _)
        (Keeps-bind (Keeps-read_buffered rounds) (λ _. Keeps-deliver_into buf))

  -- Whatever the transport gives, however many rounds it takes and whatever comes of it,
  -- errors and panics included, a `read` leaves the window of the decrypted bytes inside the
  -- read buffer if it was there before.
  pub read-WindowIsValid :
      (rounds : ℕ) (buf : List ℕ) (s : TlsConnection c tr)
      → WindowIsValid s
      → WindowIsValid (read c tr rounds buf s).1
  read-WindowIsValid rounds buf s v = (Keeps-read rounds buf).at s v
