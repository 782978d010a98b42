-- ===== src/RecordReader/Same.antt =====
-- The array of a `RecordReader` of src/record_reader.rs: whatever the transport gives, it keeps its length.
use embedded_tls.Prelude.{
  ℕ, zero, suc, ◌+◌, ◌≡◌, refl, ◌∙◌, arith, Bool-cases, inl, inr, List, length, take, drop,
  length-overwrite, ltb, leb, ◌==◌, if◌then◌else◌,
}
use embedded_tls.Exec.{Result, ok, err, panic, stuck, Exec, pure, raise, continue, sub, ◌>>=◌, ◌>>◌}
use embedded_tls.Error.{TlsError, io_error}
use embedded_tls.Codec.Header.{RecordHeader, content_length}
use embedded_tls.RecordReader.{
  RecordReader, Receives, ensure_contiguous, read_into, add_pending, receive, advance, consume,
  on_transport, read, received,
}

module _ {T : Type 0} where
  -- The array has the same length behind the action, whatever comes of it.
  pub record SameLength {A : Type 0} (m : Exec (RecordReader × T) TlsError A) : Type 0 where
    pub at : (r : RecordReader) (t : T) → length (m (r, t)).1.0.buf ≡ length r.buf

  SameLength-bind :
      {A B : Type 0} {m : Exec (RecordReader × T) TlsError A}
      {f : A → Exec (RecordReader × T) TlsError B}
      → SameLength m
      → ((a : A) → SameLength (f a))
      → SameLength (m >>= f)
  unfolding ◌>>=◌
  SameLength-bind {A} {B} {m} {f} p q = record {
    at = λ r t. go (m (r, t)).0 (m (r, t)).1.0 (m (r, t)).1.1 ∙ p.at r t;
  }
    where
      go :
          (res : Result TlsError A) (r : RecordReader) (t : T)
          → length (continue res f (r, t)).1.0.buf ≡ length r.buf
      go (ok a) r t = (q a).at r t
      go (err _) r t = refl
      go panic r t = refl
      go stuck r t = refl

module _ {T : Type 0} (read_some : ℕ → Exec T ℕ (List ℕ)) where
  SameLength-ensure_contiguous : (n : ℕ) → SameLength (ensure_contiguous read_some n)
  unfolding ensure_contiguous
  SameLength-ensure_contiguous n = record {
    at = λ r t. ground (arith, length-overwrite r.buf 0 (take r.pending (drop r.decoded r.buf)));
  }

  SameLength-read_into : (n : ℕ) → SameLength (read_into read_some n)
  unfolding read_into
  SameLength-read_into n = record {
    at = λ r t. elim (Bool-cases (leb (r.decoded + r.pending + n) (length r.buf))) [
      | inl p ↦ rw p (go r (read_some n t).0 (read_some n t).1)
      | inr p ↦ rw p refl
    ];
  }
    where
      go :
          (r : RecordReader) (res : Result ℕ (List ℕ)) (t : T)
          → length (received read_some res r t).1.0.buf ≡ length r.buf
      go r (ok bs) t = length-overwrite r.buf (r.decoded + r.pending) bs
      go r (err _) t = refl
      go r panic t = refl
      go r stuck t = refl

  SameLength-sub : (a b : ℕ) → SameLength {T = T} (sub a b)
  unfolding sub
  SameLength-sub a b = record { at = λ r t. ground arith }

  SameLength-add_pending : (n : ℕ) → SameLength (add_pending read_some n)
  unfolding add_pending
  SameLength-add_pending n = record { at = λ r t. refl }

  SameLength-round :
      (amount remain : ℕ) (rest : ℕ → Receives read_some (Unit {0}))
      → ((left : ℕ) → SameLength (rest left))
      → SameLength (do
        bs ← read_into read_some remain
        if length bs == 0
            then raise io_error
            else (do left ← sub remain (length bs); add_pending read_some (length bs); rest left))
  unfolding raise
  SameLength-round amount remain rest ih = SameLength-bind (SameLength-read_into remain) (λ bs.
      elim (Bool-cases (length bs == 0)) [
        | inl p ↦ rw p (record { at = λ r t. refl })
        | inr p ↦ rw p (
            SameLength-bind (SameLength-sub remain (length bs))
              (λ left. SameLength-bind (SameLength-add_pending (length bs)) (λ _. ih left)))
      ])

  SameLength-receive : (fuel amount remain : ℕ) → SameLength (receive read_some fuel amount remain)
  unfolding receive
  SameLength-receive zero amount remain = record { at = λ r t. ground arith }
  SameLength-receive (suc fuel) amount remain = record {
    at = λ r t. elim (Bool-cases (ltb r.pending amount)) [
      | inl p ↦ rw p (
          (SameLength-round amount remain (receive read_some fuel amount)
              (λ left. SameLength-receive fuel amount left)).at
            r t)
      | inr p ↦ rw p refl
    ];
  }

  SameLength-consume : (header : RecordHeader) → SameLength (consume read_some header)
  unfolding consume
  SameLength-consume header = record { at = λ r t. ground arith }

  -- Whatever the transport gives, also where `read` fails, the array of the reader keeps its length.
  pub SameLength-read : SameLength (read read_some)
  unfolding read advance on_transport pure
  SameLength-read =
      SameLength-bind (record { at = λ r t. refl })
        (λ header.
          SameLength-bind
            (SameLength-bind (SameLength-ensure_contiguous (content_length header)) (λ _.
              SameLength-receive (content_length header) (content_length header)
                (content_length header)))
            (λ _.
              SameLength-bind (SameLength-consume header) (λ slice. record { at = λ r t. refl })))
