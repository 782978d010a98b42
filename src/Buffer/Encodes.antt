-- ===== src/Buffer/Encodes.antt =====
-- What an encoder owes its caller: it appends exactly its bytes to the window and changes nothing
-- else, or, where they do not fit, it returns an error. It never panics.
use embedded_tls.Prelude.{
  ℕ, ◌+◌, ◌≤◌, ◌<◌, ◌≡◌, sym, ap, inl, inr, List, [], ◌∷◌, ◌++◌, arith, length, length-append,
  overwrite, length-overwrite, overwrite-append, overwrite-nil, lt_or_le,
}
use embedded_tls.Prelude.Words.{be16, be24, be32}
use mathlib.Core.List.{flat_map}
use embedded_tls.Exec.{
  Result, ok, err, panic, stuck, IsErr, relabel, map_err, continue, ◌>>=◌, ◌>>◌, for_each, pure,
}
use embedded_tls.Error.{TlsError}
use embedded_tls.Buffer.{CryptoBuffer, Write, push, extend_from_slice, push_u16, push_u24, push_u32}

pub record IsValid (b : CryptoBuffer) : Type 0 where
  pub inside : b.offset + b.len ≤ length b.buf

-- The buffer after `bs` was appended to the window.
abbrev pub put : CryptoBuffer → List ℕ → CryptoBuffer
put b bs = record b { buf = overwrite b.buf (b.offset + b.len) bs; len = b.len + length bs }

abbrev pub Fits : CryptoBuffer → List ℕ → Type 0
Fits b bs = b.offset + b.len + length bs ≤ length b.buf

pub record Encodes (m : Write (Unit {0})) (bs : List ℕ) : Type 0 where
  pub fits : (b : CryptoBuffer) → Fits b bs → m b ≡ (ok tt, put b bs)
  pub full :
      (b : CryptoBuffer) → IsValid b → length b.buf < b.offset + b.len + length bs → IsErr (m b).0

pub CryptoBuffer-path :
    {buf buf' : List ℕ} {len len' : ℕ} (offset : ℕ)
    → buf ≡ buf'
    → len ≡ len'
    → ◌≡◌ {A = CryptoBuffer}
        (record { buf = buf; offset = offset; len = len })
        (record { buf = buf'; offset = offset; len = len' })
CryptoBuffer-path offset p q = λ i. record { buf = p i; offset = offset; len = q i }

pub put-put : (b : CryptoBuffer) (xs ys : List ℕ) → put (put b xs) ys ≡ put b (xs ++ ys)
put-put b xs ys =
    CryptoBuffer-path b.offset
      (overwrite-append b.buf (b.offset + b.len) (b.offset + (b.len + length xs)) xs ys
        (omega arith))
      (omega (arith, length-append xs ys))

pub put-IsValid : (b : CryptoBuffer) (bs : List ℕ) → Fits b bs → IsValid (put b bs)
put-IsValid b bs h = record { inside = omega (arith, length-overwrite b.buf (b.offset + b.len) bs) }

pub Encodes-extend_from_slice : (bs : List ℕ) → Encodes (extend_from_slice bs) bs
unfolding extend_from_slice
Encodes-extend_from_slice bs = record { fits = λ b h. ground arith; full = λ b v h. ground arith }

pub Encodes-push : (x : ℕ) → Encodes (push x) (x ∷ [])
unfolding push
Encodes-push x = record { fits = λ b h. ground arith; full = λ b v h. ground arith }

pub Encodes-push_u16 : (n : ℕ) → Encodes (push_u16 n) (be16 n)
unfolding push_u16
Encodes-push_u16 n = Encodes-extend_from_slice (be16 n)

pub Encodes-push_u24 : (n : ℕ) → Encodes (push_u24 n) (be24 n)
unfolding push_u24
Encodes-push_u24 n = Encodes-extend_from_slice (be24 n)

pub Encodes-push_u32 : (n : ℕ) → Encodes (push_u32 n) (be32 n)
unfolding push_u32
Encodes-push_u32 n = Encodes-extend_from_slice (be32 n)

pub Encodes-pure : Encodes (pure tt) []
unfolding pure
Encodes-pure = record {
  fits = λ b h.
      ap (λ c. (ok tt, c)) (CryptoBuffer-path b.offset (sym (overwrite-nil b.buf _)) (omega arith));
  full = λ b v h. absurd (omega arith);
}

pub IsErr-continue :
    (r : Result TlsError (Unit {0})) (k : Unit {0} → Write (Unit {0})) (b : CryptoBuffer)
    → IsErr r
    → IsErr (continue r k b).0
IsErr-continue (err e) k b h = h
IsErr-continue (ok a) k b h = absurd h
IsErr-continue panic k b h = absurd h
IsErr-continue stuck k b h = absurd h

pub Fits-front : (b : CryptoBuffer) (xs ys : List ℕ) → Fits b (xs ++ ys) → Fits b xs
Fits-front b xs ys h = omega (arith, length-append xs ys)

pub Fits-back : (b : CryptoBuffer) (xs ys : List ℕ) → Fits b (xs ++ ys) → Fits (put b xs) ys
Fits-back b xs ys h =
    omega (arith, length-append xs ys, length-overwrite b.buf (b.offset + b.len) xs)

-- One encoder behind another.
pub Encodes-bind :
    {m n : Write (Unit {0})} {xs ys : List ℕ}
    → Encodes m xs
    → Encodes n ys
    → Encodes (m >> n) (xs ++ ys)
unfolding ◌>>=◌
Encodes-bind {m} {n} {xs} {ys} em en = record {
  fits = λ b h.
      rw (em.fits b (Fits-front b xs ys h), en.fits (put b xs) (Fits-back b xs ys h))
        (ap (λ c. (ok tt, c)) (put-put b xs ys));
  full = λ b v h. elim (lt_or_le (length b.buf) (b.offset + b.len + length xs)) [
    | inl over ↦ IsErr-continue _ (λ _. n) _ (em.full b v over)
    | inr fit ↦ rw (em.fits b fit) (
        en.full (put b xs) (put-IsValid b xs fit)
          (omega (arith, length-append xs ys, length-overwrite b.buf (b.offset + b.len) xs)))
  ];
}

IsErr-relabel :
    (f : TlsError → TlsError) (r : Result TlsError (Unit {0})) → IsErr r → IsErr (relabel f r)
IsErr-relabel f (err e) h = h
IsErr-relabel f (ok a) h = absurd h
IsErr-relabel f panic h = absurd h
IsErr-relabel f stuck h = absurd h

-- Another error for the same failure.
pub Encodes-map_err :
    {m : Write (Unit {0})} {bs : List ℕ} (f : TlsError → TlsError)
    → Encodes m bs
    → Encodes (map_err f m) bs
unfolding map_err
Encodes-map_err {m} {bs} f em = record {
  fits = λ b h. rw (em.fits b h);
  full = λ b v h. IsErr-relabel f _ (em.full b v h);
}

-- A loop of encoders.
pub Encodes-for_each :
    {A : Type 0} {f : A → Write (Unit {0})} {g : A → List ℕ}
    → ((a : A) → Encodes (f a) (g a))
    → (xs : List A) → Encodes (for_each f xs) (flat_map g xs)
unfolding for_each flat_map
Encodes-for_each h [] = Encodes-pure
Encodes-for_each h (x ∷ xs) = Encodes-bind (h x) (Encodes-for_each h xs)
