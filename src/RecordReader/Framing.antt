-- ===== src/RecordReader/Framing.antt =====
-- Records come out of the transport whole, however it cuts the bytes.
use embedded_tls.Prelude.{
  ℕ, zero, suc, ◌+◌, ◌-◌, ◌≤◌, ◌<◌, ◌≡◌, refl, sym, ap, ap₂, ◌∙◌, false, List, [], ◌∷◌, ◌++◌, arith,
  length, length-append, append_assoc, append-nil, drop, ◌==◌, if◌then◌else◌,
}
use embedded_tls.Exec.{ok, Exec, sub, map_err, raise, bind_ok, ◌>>=◌}
use embedded_tls.Error.{io_error, io}
use embedded_tls.RecordReader.{fill_header}

-- A transport without errors that has the bytes `incoming t` to give: `read` gives the next of them, no
-- more than the slice has room for, and some where there are some and there is room.
pub record Delivers {T : Type 0} (read_some : ℕ → Exec T ℕ (List ℕ)) (incoming : T → List ℕ)
    : Type 0 where
  pub chunk :
      (n : ℕ) (t : T)
      → (bs : List ℕ) × ((read_some n t).0 ≡ ok bs)
        × (bs ++ incoming (read_some n t).1 ≡ incoming t)
        × (length bs ≤ n)
        × (0 < n → 0 < length (incoming t) → 0 < length bs)

tail_of : List ℕ → List ℕ
tail_of [] = []
tail_of (x ∷ xs) = xs

head_or : ℕ → List ℕ → ℕ
head_or d [] = d
head_or d (x ∷ xs) = x

-- A front of `ys ++ zs` that is no longer than `ys`.
front_of :
    (bs xs ys zs : List ℕ)
    → bs ++ xs ≡ ys ++ zs
    → length bs ≤ length ys
    → (bs ++ drop (length bs) ys ≡ ys) × (xs ≡ drop (length bs) ys ++ zs)
unfolding tail_of head_or
front_of [] xs ys zs e h = (refl, e)
front_of (b ∷ bs) xs [] zs e h = absurd (omega arith)
front_of (b ∷ bs) xs (y ∷ ys) zs e h =
    let (p, q) = front_of bs xs ys zs (ap tail_of e) (omega arith) in
    (ap₂ (λ u v. u ∷ v) (ap (head_or 0) e) p, q)

pub below_not_equal : (a b : ℕ) → a < b → (a == b) ≡ false
below_not_equal a b h = ground arith

pub positive_not_zero : (a : ℕ) → 0 < a → (a == 0) ≡ false
positive_not_zero a h = ground arith

pub sub_ok : {S E : Type 0} (a b : ℕ) (s : S) → b ≤ a → sub {S = S} {E = E} a b s ≡ (ok (a - b), s)
unfolding sub
sub_ok a b s h = ground arith

pub map_err_ok :
    {S E F A : Type 0} (f : E → F) (m : Exec S E A) {s s' : S} {a : A}
    → m s ≡ (ok a, s')
    → map_err f m s ≡ (ok a, s')
unfolding map_err
map_err_ok f m e = rw e

module _ {T : Type 0} {read_some : ℕ → Exec T ℕ (List ℕ)} {incoming : T → List ℕ}
    (d : Delivers read_some incoming) where
  -- One `read` of the transport, on the bytes that are needed and the rest.
  pub next_chunk :
      (n : ℕ) (t : T) (need rest : List ℕ)
      → length need ≡ n
      → 0 < n
      → incoming t ≡ need ++ rest
      → (bs : List ℕ) × (t' : T) × (read_some n t ≡ (ok bs, t'))
        × (0 < length bs)
        × (length bs ≤ n)
        × (bs ++ drop (length bs) need ≡ need)
        × (incoming t' ≡ drop (length bs) need ++ rest)
  next_chunk n t need rest e pos whole =
      let (bs, returned, stream, small, some_byte) = d.chunk n t in
      let (p, q) =
        front_of bs (incoming (read_some n t).1) need rest (stream ∙ whole) (omega arith) in
      let there : 0 < length (incoming t) =
        omega (arith, ap length whole, length-append need rest) in
      (
        bs,
        (read_some n t).1,
        ap (λ r. (r, (read_some n t).1)) returned,
        some_byte pos there,
        small,
        p,
        q,
      )

  fill_done :
      (fuel : ℕ) (got : List ℕ) (t : T)
      → length got ≡ 5
      → fill_header read_some fuel got t ≡ (ok got, t)
  unfolding fill_header
  fill_done zero got t e = ground arith
  fill_done (suc fuel) got t e = ground arith

  fill_step :
      (fuel : ℕ) (got bs : List ℕ) (t t' : T)
      → length got < 5
      → read_some (5 - length got) t ≡ (ok bs, t')
      → 0 < length bs
      → fill_header read_some (suc fuel) got t ≡ fill_header read_some fuel (got ++ bs) t'
  unfolding fill_header
  fill_step fuel got bs t t' h e pos = rw (below_not_equal (length got) 5 h) (
      bind_ok (sub 5 (length got))
        (λ room. map_err io (read_some room) >>= λ bs.
          if length bs == 0 then raise io_error else fill_header read_some fuel (got ++ bs))
        (sub_ok 5 (length got) t (omega arith))
      ∙ bind_ok (map_err io (read_some (5 - length got)))
          (λ bs. if length bs == 0 then raise io_error else fill_header read_some fuel (got ++ bs))
          (map_err_ok io (read_some (5 - length got)) e)
      ∙ ap (λ b. (if b then raise io_error else fill_header read_some fuel (got ++ bs)) t')
          (positive_not_zero (length bs) pos))

  pub fill_header_lem :
      (fuel : ℕ) (got need rest : List ℕ) (t : T)
      → length got + length need ≡ 5
      → length need ≤ fuel
      → incoming t ≡ need ++ rest
      → (t' : T) × (fill_header read_some fuel got t ≡ (ok (got ++ need), t'))
        × (incoming t' ≡ rest)
  fill_header_lem fuel got [] rest t five enough whole =
      (t, fill_done fuel got t (omega arith) ∙ ap (λ g. (ok g, t)) (sym (append-nil got)), whole)
  fill_header_lem zero got (y ∷ ys) rest t five enough whole = absurd (omega arith)
  fill_header_lem (suc fuel) got (y ∷ ys) rest t five enough whole =
      let (bs, t1, returned, pos, small, p, q) =
        next_chunk (5 - length got) t (y ∷ ys) rest (omega arith) (omega arith) whole in
      let left = drop (length bs) (y ∷ ys) in
      let sizes : length bs + length left ≡ length (y ∷ ys) =
        omega (arith, ap length p, length-append bs left) in
      let (t2, run, rest_is) =
        fill_header_lem fuel (got ++ bs) left rest t1 (omega (arith, sizes, length-append got bs))
          (omega (arith, sizes)) q in
      (
        t2,
        fill_step fuel got bs t t1 (omega arith) returned pos
            ∙ run
            ∙ ap (λ g. (ok g, t2)) (append_assoc got bs left ∙ ap (λ n. got ++ n) p),
        rest_is,
      )
