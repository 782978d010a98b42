-- ===== src/RecordReader/Receive.antt =====
-- One record is read whole, however the transport cuts the bytes.
use embedded_tls.Prelude.{
  ℕ, zero, suc, ◌+◌, ◌-◌, ◌≤◌, ◌<◌, ◌≡◌, refl, sym, ap, ◌∙◌, List, [], ◌∷◌, ◌++◌, arith, length,
  length-append, length-drop, drop, ◌==◌, if◌then◌else◌, overwrite, overwrite-nil, length-overwrite,
  overwrite-append, lt→ltb, le→leb,
}
use embedded_tls.Exec.{ok, Exec, sub, raise, bind_ok, ◌>>=◌, ◌>>◌}
use embedded_tls.Error.{io_error}
use embedded_tls.RecordReader.{RecordReader, Receives, receive, read_into, add_pending}
use embedded_tls.RecordReader.Framing.{Delivers, next_chunk, positive_not_zero, sub_ok}

RecordReader-path :
    {buf buf' : List ℕ} {pending pending' : ℕ} (decoded : ℕ)
    → buf ≡ buf'
    → pending ≡ pending'
    → ◌≡◌ {A = RecordReader}
        (record { buf = buf; decoded = decoded; pending = pending })
        (record { buf = buf'; decoded = decoded; pending = pending' })
RecordReader-path decoded p q = λ i. record { buf = p i; decoded = decoded; pending = q i }

-- The reader after `bs` was read behind what is pending.
abbrev pub taken : RecordReader → List ℕ → RecordReader
taken r bs = record r {
  buf = overwrite r.buf (r.decoded + r.pending) bs;
  pending = r.pending + length bs;
}

taken-taken : (r : RecordReader) (xs ys : List ℕ) → taken (taken r xs) ys ≡ taken r (xs ++ ys)
taken-taken r xs ys =
    RecordReader-path r.decoded
      (overwrite-append r.buf (r.decoded + r.pending) (r.decoded + (r.pending + length xs)) xs ys
        (omega arith))
      (omega (arith, length-append xs ys))

module _ {T : Type 0} {read_some : ℕ → Exec T ℕ (List ℕ)} {incoming : T → List ℕ}
    (d : Delivers read_some incoming) where
  receive_done :
      (fuel amount remain : ℕ) (r : RecordReader) (t : T)
      → r.pending ≡ amount
      → receive read_some fuel amount remain (r, t) ≡ (ok tt, (r, t))
  unfolding receive
  receive_done zero amount remain r t e = ground arith
  receive_done (suc fuel) amount remain r t e = ground arith

  read_into_lem :
      (remain : ℕ) (r : RecordReader) (t t' : T) (bs : List ℕ)
      → r.decoded + r.pending + remain ≤ length r.buf
      → read_some remain t ≡ (ok bs, t')
      → read_into read_some remain (r, t)
        ≡ (ok bs, (record r { buf = overwrite r.buf (r.decoded + r.pending) bs }, t'))
  unfolding read_into
  read_into_lem remain r t t' bs room e =
      rw (le→leb (r.decoded + r.pending + remain) (length r.buf) room, e)

  add_pending_lem :
      (n : ℕ) (r : RecordReader) (t : T)
      → add_pending read_some n (r, t) ≡ (ok tt, (record r { pending = r.pending + n }, t))
  unfolding add_pending
  add_pending_lem n r t = refl

  receive_step :
      (fuel amount remain : ℕ) (r : RecordReader) (t t' : T) (bs : List ℕ)
      → r.pending < amount
      → r.decoded + r.pending + remain ≤ length r.buf
      → read_some remain t ≡ (ok bs, t')
      → 0 < length bs
      → length bs ≤ remain
      → receive read_some (suc fuel) amount remain (r, t)
        ≡ receive read_some fuel amount (remain - length bs) (taken r bs, t')
  unfolding receive
  receive_step fuel amount remain r t t' bs more room e pos small =
      let v : RecordReader = record r { buf = overwrite r.buf (r.decoded + r.pending) bs } in
      let go : ℕ → ℕ → Receives read_some (Unit {0}) =
        λ n left. add_pending read_some n >> receive read_some fuel amount left in
      let keep : List ℕ → Receives read_some (Unit {0}) =
        λ xs. sub remain (length xs) >>= go (length xs) in
      rw (lt→ltb r.pending amount more) (
        bind_ok (read_into read_some remain)
          (λ xs. if length xs == 0 then raise io_error else keep xs)
          (read_into_lem remain r t t' bs room e)
        ∙ ap (λ b. (if b then raise io_error else keep bs) (v, t'))
            (positive_not_zero (length bs) pos)
        ∙ bind_ok (sub remain (length bs)) (go (length bs))
            (sub_ok remain (length bs) (v, t') small)
        ∙ bind_ok (add_pending read_some (length bs))
            (λ _. receive read_some fuel amount (remain - length bs))
            (add_pending_lem (length bs) v t'))

  -- The loop reads what is needed and no more.
  pub receive_lem :
      (fuel amount remain : ℕ) (r : RecordReader) (t : T) (need rest : List ℕ)
      → length need ≡ remain
      → r.pending + remain ≡ amount
      → r.decoded + amount ≤ length r.buf
      → remain ≤ fuel
      → incoming t ≡ need ++ rest
      → (t' : T) × (receive read_some fuel amount remain (r, t) ≡ (ok tt, (taken r need, t')))
        × (incoming t' ≡ rest)
  receive_lem fuel amount remain r t [] rest n total room enough whole = (
    t,
    receive_done fuel amount remain r t (omega arith)
        ∙ ap (λ q. (ok tt, (q, t)))
            (RecordReader-path r.decoded (sym (overwrite-nil r.buf (r.decoded + r.pending)))
              (omega arith)),
    whole,
  )
  receive_lem zero amount remain r t (y ∷ ys) rest n total room enough whole = absurd (omega arith)
  receive_lem (suc fuel) amount remain r t (y ∷ ys) rest n total room enough whole =
      let (bs, t1, returned, pos, small, p, q) =
        next_chunk d remain t (y ∷ ys) rest n (omega arith) whole in
      let left = drop (length bs) (y ∷ ys) in
      let sizes = length-drop (length bs) (y ∷ ys) in
      let (t2, run, rest_is) =
        receive_lem fuel amount (remain - length bs) (taken r bs) t1 left rest
          (omega (arith, sizes)) (omega arith)
          (omega (arith, length-overwrite r.buf (r.decoded + r.pending) bs)) (omega arith) q in
      (
        t2,
        receive_step fuel amount remain r t t1 bs (omega arith) (omega arith) returned pos small
            ∙ run
            ∙ ap (λ v. (ok tt, (v, t2))) (taken-taken r bs left ∙ ap (taken r) p),
        rest_is,
      )
