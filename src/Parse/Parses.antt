-- ===== src/Parse/Parses.antt =====
-- Reading back what an encoder wrote: the parser, standing in front of the bytes of a value, returns
-- that value and stands behind them, whatever follows.
use embedded_tls.Prelude.{
  ℕ, zero, suc, ◌+◌, ◌^◌, ◌≤◌, ◌<◌, ◌≡◌, refl, sym, ap, ap₂, ◌∙◌, subst, List, [], ◌∷◌, ◌++◌,
  append-nil, append_assoc, arith, length, length-append, take, drop, drop-append, take-append,
  get_elem?, some, le→leb,
}
use embedded_tls.Prelude.Words.{
  be16, be24, be32, of_be16, of_be24, of_be32, of_be16-be16, of_be24-be24, of_be32-be32,
}
use embedded_tls.Exec.{ok, Exec, pure, map_err, ◌>>=◌}
use embedded_tls.Parse.{
  ParseBuffer, advance, new, slice, read_u8, read_u16, read_u24, read_u32, fill,
}

-- The cursor between `front` and `rest`.
abbrev pub at : List ℕ → List ℕ → ParseBuffer
at front rest = record { pos = length front; buffer = front ++ rest }

pub record Parses {E A : Type 0} (m : Exec ParseBuffer E A) (v : A) (bs : List ℕ) : Type 0 where
  pub run : (front rest : List ℕ) → m (at front (bs ++ rest)) ≡ (ok v, at (front ++ bs) rest)

ParseBuffer-path :
    {pos pos' : ℕ} {buffer buffer' : List ℕ}
    → pos ≡ pos'
    → buffer ≡ buffer'
    → ◌≡◌ {A = ParseBuffer}
        (record { pos = pos; buffer = buffer })
        (record { pos = pos'; buffer = buffer' })
ParseBuffer-path p q = λ i. record { pos = p i; buffer = q i }

pub advance-at :
    (front bs rest : List ℕ) (n : ℕ)
    → n ≡ length bs
    → advance n (at front (bs ++ rest)) ≡ at (front ++ bs) rest
advance-at front bs rest n e =
    ParseBuffer-path (omega (arith, length-append front bs)) (sym (append_assoc front bs rest))

at_path :
    (front bs rest : List ℕ)
    → at front (bs ++ rest) ≡ record { pos = length front; buffer = (front ++ bs) ++ rest }
at_path front bs rest = ParseBuffer-path refl (sym (append_assoc front bs rest))

module _ {E A : Type 0} where
  pub Parses-pure : (v : A) → Parses {E = E} (pure v) v []
  unfolding pure
  Parses-pure v = record {
    run = λ front rest. ap (λ c. (ok v, at c rest)) (sym (append-nil front));
  }

  pub Parses-map_err :
      {F : Type 0} {m : Exec ParseBuffer E A} {v : A} {bs : List ℕ} (g : E → F)
      → Parses m v bs
      → Parses (map_err g m) v bs
  unfolding map_err
  Parses-map_err g p = record { run = λ front rest. rw (p.run front rest) }

pub Parses-bind :
    {E A B : Type 0} {m : Exec ParseBuffer E A} {v : A} {w : B} {xs ys : List ℕ}
    (k : A → Exec ParseBuffer E B)
    → Parses m v xs
    → Parses (k v) w ys
    → Parses (m >>= k) w (xs ++ ys)
unfolding ◌>>=◌
Parses-bind {v = v} {w = w} {xs = xs} {ys = ys} k p q = record {
  run = λ front rest.
      rw (append_assoc xs ys rest, p.run front (ys ++ rest), q.run (front ++ xs) rest)
        (ap (λ c. (ok w, at c rest)) (append_assoc front xs ys));
}

-- The rest reads nothing.
pub Parses-end :
    {E A B : Type 0} {m : Exec ParseBuffer E A} {v : A} {w : B} {xs : List ℕ}
    (k : A → Exec ParseBuffer E B)
    → Parses m v xs
    → Parses (k v) w []
    → Parses (m >>= k) w xs
Parses-end {m = m} {w = w} {xs = xs} k p q =
    subst (Parses (m >>= k) w) (append-nil xs) (Parses-bind k p q)

get_elem?-at :
    (front : List ℕ) (xs : List ℕ) (i j : ℕ)
    → i ≡ length front + j
    → get_elem? (front ++ xs) i ≡ get_elem? xs j
get_elem?-at [] xs i j e = ap (get_elem? xs) (omega arith)
get_elem?-at (x ∷ front) xs zero j e = absurd (omega arith)
get_elem?-at (x ∷ front) xs (suc i) j e = get_elem?-at front xs i j (omega arith)

-- The bytes from the cursor on are those of `bs`.
record Shows (p : ParseBuffer) (bs : List ℕ) : Type 0 where
  room : p.pos + length bs ≤ length p.buffer
  look : (j : ℕ) → j < length bs → get_elem? p.buffer (p.pos + j) ≡ get_elem? bs j

get_elem?-front : (xs ys : List ℕ) (j : ℕ) → j < length xs → get_elem? (xs ++ ys) j ≡ get_elem? xs j
get_elem?-front [] ys j h = absurd (omega arith)
get_elem?-front (x ∷ xs) ys zero h = refl
get_elem?-front (x ∷ xs) ys (suc j) h = get_elem?-front xs ys j (omega arith)

at-Shows : (front bs rest : List ℕ) → Shows (at front (bs ++ rest)) bs
at-Shows front bs rest = record {
  room = omega (arith, length-append front (bs ++ rest), length-append bs rest);
  look = λ j h.
      get_elem?-at front (bs ++ rest) (length front + j) j refl ∙ get_elem?-front bs rest j h;
}

-- The element at the cursor itself.
Shows-first :
    {p : ParseBuffer} {a : ℕ} {bs : List ℕ} → Shows p (a ∷ bs) → get_elem? p.buffer p.pos ≡ some a
Shows-first {p} s = ap (get_elem? p.buffer) (omega arith) ∙ s.look 0 (omega arith)

read_u8_lem : (p : ParseBuffer) (a : ℕ) → Shows p (a ∷ []) → read_u8 p ≡ (ok a, advance 1 p)
unfolding read_u8
read_u8_lem p a s = ground (arith, Shows-first s)

read_u16_lem :
    (p : ParseBuffer) (a b : ℕ)
    → Shows p (a ∷ b ∷ [])
    → read_u16 p ≡ (ok (of_be16 a b), advance 2 p)
unfolding read_u16
read_u16_lem p a b s = ground (arith, Shows-first s, s.look 1)

read_u24_lem :
    (p : ParseBuffer) (a b c : ℕ)
    → Shows p (a ∷ b ∷ c ∷ [])
    → read_u24 p ≡ (ok (of_be24 a b c), advance 3 p)
unfolding read_u24
read_u24_lem p a b c s = ground (arith, Shows-first s, s.look 1, s.look 2)

read_u32_lem :
    (p : ParseBuffer) (a b c d : ℕ)
    → Shows p (a ∷ b ∷ c ∷ d ∷ [])
    → read_u32 p ≡ (ok (of_be32 a b c d), advance 4 p)
unfolding read_u32
read_u32_lem p a b c d s = ground (arith, Shows-first s, s.look 1, s.look 2, s.look 3)

pub Parses-read_u8 : (a : ℕ) → Parses read_u8 a (a ∷ [])
Parses-read_u8 a = record {
  run = λ front rest.
      read_u8_lem _ a (at-Shows front (a ∷ []) rest)
      ∙ ap (λ c. (ok a, c)) (advance-at front (a ∷ []) rest 1 refl);
}

pub Parses-read_u16 : (n : ℕ) → n < 2 ^ 16 → Parses read_u16 n (be16 n)
Parses-read_u16 n h = record {
  run = λ front rest.
      read_u16_lem _ _ _ (at-Shows front (be16 n) rest)
      ∙ ap₂ (λ v c. (ok v, c)) (of_be16-be16 n h) (advance-at front (be16 n) rest 2 refl);
}

pub Parses-read_u24 : (n : ℕ) → n < 2 ^ 24 → Parses read_u24 n (be24 n)
Parses-read_u24 n h = record {
  run = λ front rest.
      read_u24_lem _ _ _ _ (at-Shows front (be24 n) rest)
      ∙ ap₂ (λ v c. (ok v, c)) (of_be24-be24 n h) (advance-at front (be24 n) rest 3 refl);
}

pub Parses-read_u32 : (n : ℕ) → n < 2 ^ 32 → Parses read_u32 n (be32 n)
Parses-read_u32 n h = record {
  run = λ front rest.
      read_u32_lem _ _ _ _ _ (at-Shows front (be32 n) rest)
      ∙ ap₂ (λ v c. (ok v, c)) (of_be32-be32 n h) (advance-at front (be32 n) rest 4 refl);
}

take-at :
    (front bs rest : List ℕ) → take (length bs) (drop (length front) (front ++ (bs ++ rest))) ≡ bs
take-at front bs rest = rw (drop-append front (bs ++ rest)) (take-append bs rest)

pub Parses-slice : (bs : List ℕ) → Parses (slice (length bs)) (new bs) bs
unfolding slice
Parses-slice bs = record {
  run = λ front rest. rw (le→leb _ _ (at-Shows front bs rest).room) (
      ap₂ (λ v c. (ok (new v), c)) (take-at front bs rest)
        (advance-at front bs rest (length bs) refl));
}

pub Parses-fill : (bs : List ℕ) → Parses (fill (length bs)) bs bs
unfolding fill
Parses-fill bs = record {
  run = λ front rest.
      rw (le→leb _ _ (at-Shows front bs rest).room) (
        ap₂ (λ v c. (ok v, c)) (take-at front bs rest) (advance-at front bs rest (length bs) refl));
}
