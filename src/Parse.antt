-- ===== src/Parse.antt =====
-- src/parse_buffer.rs: `ParseBuffer`, a cursor over a byte slice. A method that takes `&mut self` is
-- an action on it.
-- `pos + n` is bounded by the length of a slice plus 2 ^ 24, which a `usize` holds.
pub mod Total
pub mod Parses
pub mod Lists
use embedded_tls.Prelude.{
  ℕ, zero, suc, ◌+◌, ◌-◌, Bool, List, [], ◌∷◌, ◌++◌, Option, none, some, length, take, drop,
  get_elem?, ltb, leb, ◌==◌, if◌then◌else◌,
}
use embedded_tls.Prelude.Words.{of_be16, of_be24, of_be32}
use embedded_tls.Exec.{
  Result, ok, err, panic, stuck, Exec, pure, raise, unwrap, sub, relabel, map_err, ◌>>=◌, ◌>>◌,
}
use embedded_tls.Error.{ParseError, insufficient_bytes, insufficient_space, TlsError, parse_error}
use embedded_tls.Heapless.{Heapless}

pub record ParseBuffer : Type 0 where
  pub pos : ℕ
  pub buffer : List ℕ

abbrev pub Read : Type 0 → Type 0
Read = Exec ParseBuffer ParseError

-- The `?` of a function that returns a `TlsError`, on a `ParseError`.
abbrev pub lift : {A : Type 0} → Read A → Exec ParseBuffer TlsError A
lift = map_err parse_error

unfoldable pub new : List ℕ → ParseBuffer
new buffer = record { pos = 0; buffer = buffer }

unfoldable pub is_empty : ParseBuffer → Bool
is_empty p = p.pos == length p.buffer

pub remaining : {E : Type 0} → Exec ParseBuffer E ℕ
remaining p = sub (length p.buffer) p.pos p

abbrev pub advance : ℕ → ParseBuffer → ParseBuffer
advance n p = record p { pos = p.pos + n }

-- `self.buffer[i]`
index : ℕ → Read ℕ
unfolding unwrap
index i p = unwrap (get_elem? p.buffer i) p

pub slice : ℕ → Read ParseBuffer
unfolding new
slice n p =
    if leb (p.pos + n) (length p.buffer)
    then (ok (new (take n (drop p.pos p.buffer))), advance n p)
    else (err insufficient_bytes, p)

pub read_u8 : Read ℕ
unfolding index ◌>>=◌
read_u8 p =
    (if ltb p.pos (length p.buffer)
        then (do a ← index p.pos; λ q. (ok a, advance 1 q))
        else raise insufficient_bytes)
      p

pub read_u16 : Read ℕ
unfolding index ◌>>=◌
read_u16 p =
    (if leb (p.pos + 2) (length p.buffer)
        then (do a ← index p.pos; b ← index (p.pos + 1); λ q. (ok (of_be16 a b), advance 2 q))
        else raise insufficient_bytes)
      p

pub read_u24 : Read ℕ
unfolding index ◌>>=◌
read_u24 p =
    (if leb (p.pos + 3) (length p.buffer)
        then (do
          a ← index p.pos
          b ← index (p.pos + 1)
          c ← index (p.pos + 2)
          λ q. (ok (of_be24 a b c), advance 3 q))
        else raise insufficient_bytes)
      p

pub read_u32 : Read ℕ
unfolding index ◌>>=◌
read_u32 p =
    (if leb (p.pos + 4) (length p.buffer)
        then (do
          a ← index p.pos
          b ← index (p.pos + 1)
          c ← index (p.pos + 2)
          d ← index (p.pos + 3)
          λ q. (ok (of_be32 a b c d), advance 4 q))
        else raise insufficient_bytes)
      p

-- `fill` copies `n` bytes, the length of its destination.
pub fill : ℕ → Read (List ℕ)
fill n p =
    if leb (p.pos + n) (length p.buffer)
    then (ok (take n (drop p.pos p.buffer)), advance n p)
    else (err insufficient_bytes, p)

module _ {E A : Type 0} where
  abbrev pub beside : Result E A → ParseBuffer → Result E (A × ParseBuffer)
  beside (ok a) q = ok (a, q)
  beside (err e) q = err e
  beside panic q = panic
  beside stuck q = stuck

  -- An action on a local `ParseBuffer`, which the caller's cursor does not see. The local one, as the
  -- action leaves it, comes beside the result.
  unfoldable pub within : ParseBuffer → Exec ParseBuffer E A → Exec ParseBuffer E (A × ParseBuffer)
  within q m p = let (r, q') = m q in (beside r q', p)

  -- `push` on a `heapless::Vec`, with the error to which the caller maps a full vector
  unfoldable pub push_or : ⦃h : Heapless⦄ → E → ℕ → List A → A → Exec ParseBuffer E (List A)
  push_or ⦃h⦄ e n xs x p = elim (h.push A n xs x) [ none ↦ (err e, p) | some ys ↦ (ok ys, p) ]

  -- `while !buf.is_empty() { xs.push(read(buf)?)?; }` Each round reads a byte at least, so as many
  -- rounds as bytes are left are enough.
  unfoldable pub read_while :
      ⦃h : Heapless⦄ → Exec ParseBuffer E A → E → ℕ → ℕ → List A → Exec ParseBuffer E (List A)
  read_while read e n zero xs p = if is_empty p then (ok xs, p) else (stuck, p)
  read_while read e n (suc fuel) xs p =
      let rest = (do x ← read; ys ← push_or e n xs x; read_while read e n fuel ys) p in
      if is_empty p then (ok xs, p) else rest

module _ {A : Type 0} where
  pub read_list : ⦃h : Heapless⦄ → ℕ → ℕ → Read A → Read (List A)
  read_list n data_length read = do
    q ← slice data_length
    (xs, _) ← within q (λ d. read_while read insufficient_space n (length d.buffer) [] d)
    pure xs
