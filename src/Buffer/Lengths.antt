-- ===== src/Buffer/Lengths.antt =====
-- The length prefixes of src/buffer.rs: `with_u8_length`, `with_u16_length`, `with_u24_length` write
-- a zero length, run the encoder of the body, and go back to fill the length in.
use embedded_tls.Prelude.{
  ℕ, ◌+◌, ◌/◌, ◌%◌, ◌≤◌, ◌<◌, ◌≡◌, refl, ap, ap₂, ◌∙◌, inl, inr, List, [], ◌∷◌, ◌++◌, arith, length,
  length-append, overwrite, length-overwrite, overwrite-append, overwrite_again, lt_or_le,
}
use embedded_tls.Prelude.Words.{as_u8, as_u16, as_u32, be16, be24}
use embedded_tls.Exec.{ok, IsErr, sub, ◌>>=◌}
use embedded_tls.Buffer.{
  CryptoBuffer, Write, set, set_u16, set_u24, with_u8_length, with_u16_length, with_u24_length,
  prefixed,
}
use embedded_tls.Buffer.Encodes.{
  IsValid, put, Fits, Encodes, put-put, put-IsValid, Fits-front, Fits-back, Encodes-push,
  Encodes-push_u16, Encodes-push_u24, IsErr-continue, CryptoBuffer-path,
}

-- The bytes at `idx` of the window are replaced.
abbrev patch : CryptoBuffer → ℕ → List ℕ → CryptoBuffer
patch b idx bs = record b { buf = overwrite b.buf (b.offset + idx) bs }

set_lem :
    (b : CryptoBuffer) (idx x : ℕ)
    → IsValid b
    → idx < b.len
    → set idx x b ≡ (ok tt, patch b idx (x ∷ []))
unfolding set
set_lem b idx x v h = ground arith

patch-patch :
    (b : CryptoBuffer) (i j : ℕ) (xs ys : List ℕ)
    → j ≡ i + length xs
    → patch (patch b i xs) j ys ≡ patch b i (xs ++ ys)
patch-patch b i j xs ys e =
    CryptoBuffer-path b.offset
      (overwrite-append b.buf (b.offset + i) (b.offset + j) xs ys (omega arith)) refl

patch-IsValid : (b : CryptoBuffer) (i : ℕ) (xs : List ℕ) → IsValid b → IsValid (patch b i xs)
patch-IsValid b i xs v = record { inside = omega (arith, length-overwrite b.buf (b.offset + i) xs) }

set_u16_lem :
    (b : CryptoBuffer) (idx n : ℕ)
    → IsValid b
    → idx + 1 < b.len
    → set_u16 idx n b ≡ (ok tt, patch b idx (be16 n))
unfolding set_u16
set_u16_lem b idx n v h =
    rw
      (
        set_lem b idx (n / 256 % 256) v (omega arith),
        set_lem (patch b idx ((n / 256 % 256) ∷ [])) (idx + 1) (n % 256) (patch-IsValid b idx _ v)
            (omega arith),
      )
      (ap (λ c. (ok tt, c))
        (patch-patch b idx (idx + 1) ((n / 256 % 256) ∷ []) ((n % 256) ∷ []) (omega arith)))

set_u24_lem :
    (b : CryptoBuffer) (idx n : ℕ)
    → IsValid b
    → idx + 2 < b.len
    → set_u24 idx n b ≡ (ok tt, patch b idx (be24 n))
unfolding set_u24
set_u24_lem b idx n v h =
    let c = patch b idx ((n / 65536 % 256) ∷ []) in
    let d = patch c (idx + 1) ((n / 256 % 256) ∷ []) in
    let vc = patch-IsValid b idx ((n / 65536 % 256) ∷ []) v in
    rw (
      set_lem b idx (n / 65536 % 256) v (omega arith),
      set_lem c (idx + 1) (n / 256 % 256) vc (omega arith),
      set_lem d (idx + 2) (n % 256) (patch-IsValid c (idx + 1) _ vc) (omega arith),
      patch-patch c (idx + 1) (idx + 2) ((n / 256 % 256) ∷ []) ((n % 256) ∷ []) (omega arith),
      patch-patch b idx (idx + 1) ((n / 65536 % 256) ∷ []) _ (omega arith),
    )

sub_add : {S : Type 0} {E : Type 0} (a n : ℕ) (s : S) → sub {S = S} {E = E} (a + n) a s ≡ (ok n, s)
unfolding sub
sub_add a n s = ground arith

-- Filling in the length at the front of what was appended.
patch-put :
    (b : CryptoBuffer) (xs ys bs : List ℕ)
    → length xs ≡ length ys
    → patch (put b (xs ++ bs)) b.len ys ≡ put b (ys ++ bs)
patch-put b xs ys bs e =
    CryptoBuffer-path b.offset (overwrite_again b.buf (b.offset + b.len) xs ys bs e)
      (omega (arith, length-append xs bs, length-append ys bs))

-- `fill` writes `be n` over the place that `zs` holds.
abbrev Fills : (ℕ → ℕ → Write (Unit {0})) → (ℕ → List ℕ) → List ℕ → Type 0
Fills fill be zs =
    (b : CryptoBuffer) (pos n : ℕ)
    → IsValid b
    → pos + length zs ≤ b.len
    → fill pos n b ≡ (ok tt, patch b pos (be n))

module _ {lead : Write (Unit {0})} {fill : ℕ → ℕ → Write (Unit {0})} {be : ℕ → List ℕ} {zs : List ℕ}
    (elead : Encodes lead zs) (fills : Fills fill be zs)
    (same : (n : ℕ) → length zs ≡ length (be n)) {op : Write (Unit {0})} {bs : List ℕ}
    (eop : Encodes op bs) where
  Fits-zeros : (b : CryptoBuffer) → Fits b (be (length bs) ++ bs) → Fits b (zs ++ bs)
  Fits-zeros b h =
      omega (arith, same (length bs), length-append zs bs, length-append (be (length bs)) bs)

  prefixed_within :
      (b : CryptoBuffer)
      → Fits b (be (length bs) ++ bs)
      → prefixed lead fill op b ≡ (ok tt, put b (be (length bs) ++ bs))
  unfolding prefixed ◌>>=◌
  prefixed_within b h =
      let fit = Fits-zeros b h in
      rw (
        elead.fits b (Fits-front b zs bs fit),
        eop.fits (put b zs) (Fits-back b zs bs fit),
        sub_add (b.len + length zs) (length bs),
        put-put b zs bs,
        fills (put b (zs ++ bs)) b.len (length bs) (put-IsValid b (zs ++ bs) fit)
            (omega (arith, length-append zs bs)),
        patch-put b zs (be (length bs)) bs (same (length bs)),
      )

  prefixed_over :
      (b : CryptoBuffer)
      → IsValid b
      → length b.buf < b.offset + b.len + length (be (length bs) ++ bs)
      → IsErr (prefixed lead fill op b).0
  unfolding prefixed ◌>>=◌
  prefixed_over b v h = elim (lt_or_le (length b.buf) (b.offset + b.len + length zs)) [
    | inl over ↦ IsErr-continue _ _ _ (elead.full b v over)
    | inr fit ↦ rw (elead.fits b fit) (
        IsErr-continue _ _ _ (
          eop.full (put b zs) (put-IsValid b zs fit) (
            omega (
              arith,
              same (length bs),
              length-append (be (length bs)) bs,
              length-overwrite b.buf (b.offset + b.len) zs,
            ))))
  ]

  Encodes-prefixed : Encodes (prefixed lead fill op) (be (length bs) ++ bs)
  Encodes-prefixed = record { fits = prefixed_within; full = prefixed_over }

be16-as_u16 : (n : ℕ) → be16 (as_u16 n) ≡ be16 n
be16-as_u16 n = ap₂ (λ a b. a ∷ b ∷ []) (omega arith) (omega arith)

be24-as_u32 : (n : ℕ) → be24 (as_u32 n) ≡ be24 n
be24-as_u32 n =
    ap₂ (λ a (t : List ℕ). a ∷ t) (omega arith)
      (ap₂ (λ b c. b ∷ c ∷ []) (omega arith) (omega arith))

module _ {op : Write (Unit {0})} {bs : List ℕ} (eop : Encodes op bs) where
  -- Where the encoder of a body appends exactly its bytes or fails for lack of room,
  -- `with_u8_length` of it appends exactly the length of the body modulo 256 and the body, or
  -- fails for lack of room; it never panics.
  pub Encodes-with_u8_length : Encodes (with_u8_length op) ((length bs % 256) ∷ bs)
  unfolding with_u8_length
  Encodes-with_u8_length =
      Encodes-prefixed {be = λ n. (n % 256) ∷ []} (Encodes-push 0)
        (λ b pos n v h. set_lem b pos (as_u8 n) v (omega arith)) (λ n. refl) eop

  -- Where the encoder of a body appends exactly its bytes or fails for lack of room,
  -- `with_u16_length` of it appends exactly the length of the body modulo 2^16 in two bytes
  -- and the body, or fails for lack of room; it never panics.
  pub Encodes-with_u16_length : Encodes (with_u16_length op) (be16 (length bs) ++ bs)
  unfolding with_u16_length
  Encodes-with_u16_length =
      Encodes-prefixed {be = be16} (Encodes-push_u16 0)
        (λ b pos n v h.
          set_u16_lem b pos (as_u16 n) v (omega arith)
          ∙ ap (λ w. (ok tt, patch b pos w)) (be16-as_u16 n))
        (λ n. refl) eop

  -- Where the encoder of a body appends exactly its bytes or fails for lack of room,
  -- `with_u24_length` of it appends exactly the length of the body modulo 2^24 in three bytes
  -- and the body, or fails for lack of room; it never panics.
  pub Encodes-with_u24_length : Encodes (with_u24_length op) (be24 (length bs) ++ bs)
  unfolding with_u24_length
  Encodes-with_u24_length =
      Encodes-prefixed {be = be24} (Encodes-push_u24 0)
        (λ b pos n v h.
          set_u24_lem b pos (as_u32 n) v (omega arith)
          ∙ ap (λ w. (ok tt, patch b pos w)) (be24-as_u32 n))
        (λ n. refl) eop
