-- ===== src/Buffer.antt =====
-- src/buffer.rs: `CryptoBuffer`, a window of `len` bytes at `offset` of a borrowed array, to which
-- the encoders append. A method that takes `&mut self` is an action on the buffer, and so is one that
-- takes `self` and gives the moved buffer back.
-- `extend_from_slice` of the trait `Buffer` is `extend_internal` too, with another error.
pub mod Encodes
pub mod Lengths
pub mod Moves
use embedded_tls.Prelude.{
  ℕ, ◌+◌, ◌/◌, ◌%◌, Bool, List, [], ◌∷◌, length, take, drop, overwrite, ltb, leb, ◌==◌,
  if◌then◌else◌,
}
use embedded_tls.Prelude.Words.{as_u8, as_u16, as_u32, be16, be24, be32}
use embedded_tls.Exec.{ok, panic, Exec, pure, raise, gets, sub, ◌>>=◌, ◌>>◌}
use embedded_tls.Error.{TlsError}

pub record CryptoBuffer : Type 0 where
  pub buf : List ℕ
  pub offset : ℕ
  pub len : ℕ

abbrev pub Write : Type 0 → Type 0
Write = Exec CryptoBuffer TlsError

pub empty : CryptoBuffer
empty = record { buf = []; offset = 0; len = 0 }

unfoldable pub wrap : List ℕ → CryptoBuffer
wrap buf = record { buf = buf; offset = 0; len = 0 }

unfoldable pub wrap_with_pos : List ℕ → ℕ → CryptoBuffer
wrap_with_pos buf pos = record { buf = buf; offset = 0; len = pos }

unfoldable pub capacity : CryptoBuffer → ℕ
capacity b = length b.buf

pub is_empty : CryptoBuffer → Bool
is_empty b = b.len == 0

pub release : CryptoBuffer → List ℕ × ℕ × ℕ
release b = (b.buf, b.offset, b.len)

-- the window
abbrev pub contents : CryptoBuffer → List ℕ
contents b = take b.len (drop b.offset b.buf)

-- `&self.buf[self.offset..self.offset + self.len]`
pub as_slice : Write (List ℕ)
as_slice b = if leb (b.offset + b.len) (length b.buf) then (ok (contents b), b) else (panic, b)

-- `self.buf[start..start + other.len()]` is written; out of range it panics.
store : ℕ → List ℕ → Write (Unit {0})
store start other b =
    if leb (start + length other) (length b.buf)
    then (ok tt, record b { buf = overwrite b.buf start other })
    else (panic, b)

set_len : ℕ → Write (Unit {0})
set_len n b = (ok tt, record b { len = n })

space : Write ℕ
unfolding sub
space b = sub (length b.buf) (b.offset + b.len) b

pub push : ℕ → Write (Unit {0})
unfolding space store set_len ◌>>=◌
push x b =
    (do
      n ← space
      if ltb 0 n
          then store (b.offset + b.len) (x ∷ []) >> set_len (b.len + 1)
          else raise TlsError.insufficient_space)
      b

pub extend_from_slice : List ℕ → Write (Unit {0})
unfolding space store set_len ◌>>=◌
extend_from_slice other b =
    (do
      n ← space
      if ltb n (length other)
          then raise TlsError.insufficient_space
          else (store (b.offset + b.len) other >> set_len (b.len + length other)))
      b

pub push_u16 : ℕ → Write (Unit {0})
push_u16 num = extend_from_slice (be16 num)

pub push_u24 : ℕ → Write (Unit {0})
push_u24 num = extend_from_slice (be24 num)

pub push_u32 : ℕ → Write (Unit {0})
push_u32 num = extend_from_slice (be32 num)

set : ℕ → ℕ → Write (Unit {0})
unfolding store ◌>>=◌
set idx val b =
    (if ltb idx b.len then store (b.offset + idx) (val ∷ []) else raise TlsError.insufficient_space)
      b

set_u16 : ℕ → ℕ → Write (Unit {0})
unfolding ◌>>=◌
set_u16 idx val = do set idx (val / 256 % 256); set (idx + 1) (val % 256)

set_u24 : ℕ → ℕ → Write (Unit {0})
unfolding ◌>>=◌
set_u24 idx val = do
  set idx (val / 65536 % 256)
  set (idx + 1) (val / 256 % 256)
  set (idx + 2) (val % 256)

pub truncate : ℕ → Write (Unit {0})
unfolding set_len sub ◌>>=◌
truncate n b = (do room ← sub (length b.buf) b.offset; if leb n room then set_len n else pure tt) b

-- `offset` in the source: `self.len + self.offset - offset` is an underflow where the new offset is behind the end.
pub move_to : ℕ → Write (Unit {0})
unfolding sub ◌>>=◌
move_to o b = (do n ← sub (b.len + b.offset) o; λ c. (ok tt, record c { offset = o; len = n })) b

unfoldable pub forward : Write (Unit {0})
forward b = move_to b.len b

pub rewind : Write (Unit {0})
rewind = move_to 0

-- The common text of the three functions below: `lead` pushes the length 0, `fill` writes the length
-- over it.
prefixed : {R : Type 0} → Write (Unit {0}) → (ℕ → ℕ → Write (Unit {0})) → Write R → Write R
prefixed lead fill op = do
  len_pos ← gets (λ b. b.len)
  lead
  start ← gets (λ b. b.len)
  r ← op
  stop ← gets (λ b. b.len)
  n ← sub stop start
  fill len_pos n
  pure r

module _ {R : Type 0} where
  pub with_u8_length : Write R → Write R
  with_u8_length = prefixed (push 0) (λ pos n. set pos (as_u8 n))

  pub with_u16_length : Write R → Write R
  with_u16_length = prefixed (push_u16 0) (λ pos n. set_u16 pos (as_u16 n))

  pub with_u24_length : Write R → Write R
  with_u24_length = prefixed (push_u24 0) (λ pos n. set_u24 pos (as_u32 n))
