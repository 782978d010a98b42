-- ===== src/Prelude/Words.antt =====
-- Bytes and big-endian words: `to_be_bytes` and `from_be_bytes` of the integer types.
use Prim.Native.Nat.{ℕ, ◌+◌, ◌*◌, ◌/◌, ◌%◌, ◌^◌, ◌<◌}
use mathlib.Core.Path.{◌≡◌}
use mathlib.Core.List.{List, [], ◌∷◌}
use native.Mathlib.Omega.{arith}

abbrev pub IsByte : ℕ → Type 0
IsByte b = b < 256

abbrev pub as_u8 : ℕ → ℕ
as_u8 n = n % 2 ^ 8

abbrev pub as_u16 : ℕ → ℕ
as_u16 n = n % 2 ^ 16

abbrev pub as_u32 : ℕ → ℕ
as_u32 n = n % 2 ^ 32

-- the bytes of a `u16`, `u24` and `u32`, highest first
abbrev pub be16 : ℕ → List ℕ
be16 n = (n / 256 % 256) ∷ (n % 256) ∷ []

abbrev pub be24 : ℕ → List ℕ
be24 n = (n / 65536 % 256) ∷ (n / 256 % 256) ∷ (n % 256) ∷ []

abbrev pub be32 : ℕ → List ℕ
be32 n = (n / 16777216 % 256) ∷ (n / 65536 % 256) ∷ (n / 256 % 256) ∷ (n % 256) ∷ []

abbrev pub of_be16 : ℕ → ℕ → ℕ
of_be16 a b = a * 256 + b

abbrev pub of_be24 : ℕ → ℕ → ℕ → ℕ
of_be24 a b c = a * 65536 + b * 256 + c

abbrev pub of_be32 : ℕ → ℕ → ℕ → ℕ → ℕ
of_be32 a b c d = a * 16777216 + b * 65536 + c * 256 + d

pub of_be16-be16 : (n : ℕ) → n < 2 ^ 16 → of_be16 (n / 256 % 256) (n % 256) ≡ n
of_be16-be16 n h = omega arith

pub of_be24-be24 : (n : ℕ) → n < 2 ^ 24 → of_be24 (n / 65536 % 256) (n / 256 % 256) (n % 256) ≡ n
of_be24-be24 n h = omega arith

pub of_be32-be32 :
    (n : ℕ)
    → n < 2 ^ 32
    → of_be32 (n / 16777216 % 256) (n / 65536 % 256) (n / 256 % 256) (n % 256) ≡ n
of_be32-be32 n h = omega arith
