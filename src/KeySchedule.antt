-- ===== src/KeySchedule.antt =====
-- src/key_schedule.rs: `KeyScheduleState`, the key, the IV and the record counter of one direction, and
-- the nonces made of them. `WriteKeySchedule` and `ReadKeySchedule` only pass their calls on to it.
-- `iv_len` is the `IvLen` of both cipher suites of src/config.rs.
pub mod Nonce
pub mod Labels
pub mod Secrets
use embedded_tls.Prelude.{
  ℕ, zero, suc, ◌+◌, ◌-◌, ◌*◌, ◌/◌, ◌%◌, ◌^◌, Bool, Option, List, [], ◌∷◌, ◌++◌, length, overwrite,
  replicate, ltb, if◌then◌else◌,
}
use embedded_tls.Prelude.Words.{be32}
use embedded_tls.Exec.{Result, ok, panic, Exec}
use embedded_tls.Error.{TlsError}

pub record KeyScheduleState : Type 0 where
  pub traffic_secret : Option (List ℕ)
  pub counter : ℕ
  pub key : List ℕ
  pub iv : List ℕ

abbrev pub iv_len : ℕ
iv_len = 12

-- `to_be_bytes` of a `u64`
abbrev pub be64 : ℕ → List ℕ
be64 n = be32 (n / 2 ^ 32) ++ be32 n

-- `^` on the lowest bits
abbrev xor_bits : ℕ → ℕ → ℕ → ℕ
xor_bits zero a b = 0
xor_bits (suc k) a b = (a % 2 + b % 2) % 2 + 2 * xor_bits k (a / 2) (b / 2)

-- `^` on a `u8`
abbrev pub xor : ℕ → ℕ → ℕ
xor a b = xor_bits 8 a b

-- The loop of `pad`: `bytes` come last first, `index` counts them.
pad_from : ℕ → ℕ → List ℕ → List ℕ → Result TlsError (List ℕ)
pad_from n index [] padded = ok padded
pad_from n index (byte ∷ bytes) padded =
    let rest = pad_from n (suc index) bytes (overwrite padded (n - index - 1) (byte ∷ [])) in
    if ltb index n then rest else panic

reverse_onto : List ℕ → List ℕ → List ℕ
reverse_onto [] ys = ys
reverse_onto (x ∷ xs) ys = reverse_onto xs (x ∷ ys)

-- `n` zeros with `input` at the end; where `input` is longer, the index underflows.
pub pad : ℕ → List ℕ → Result TlsError (List ℕ)
unfolding pad_from reverse_onto
pad n input = pad_from n 0 (reverse_onto input []) (replicate n 0)

-- the loop of `get_nonce` over the two zipped arrays of one length
abbrev pub xor_all : List ℕ → List ℕ → List ℕ
xor_all [] rs = []
xor_all (l ∷ ls) [] = []
xor_all (l ∷ ls) (r ∷ rs) = xor l r ∷ xor_all ls rs

abbrev with_counter : List ℕ → Result TlsError (List ℕ) → Result TlsError (List ℕ)
with_counter iv (ok counter) = ok (xor_all iv counter)
with_counter iv r = r

-- `get_nonce` of `KeySchedule`
nonce_of : ℕ → List ℕ → Result TlsError (List ℕ)
unfolding pad
nonce_of counter iv = with_counter iv (pad iv_len (be64 counter))

pub get_nonce : KeyScheduleState → Result TlsError (List ℕ)
unfolding nonce_of
get_nonce s = nonce_of s.counter s.iv

-- `unwrap!(self.counter.checked_add(1))`
unfoldable pub increment_counter : Exec KeyScheduleState TlsError (Unit {0})
increment_counter s =
    if ltb (s.counter + 1) (2 ^ 64)
    then (ok tt, record s { counter = s.counter + 1 })
    else (panic, s)
