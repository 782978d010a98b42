-- ===== src/KeySchedule/Nonce.antt =====
-- No nonce is used twice under one IV.
use embedded_tls.Prelude.{
  ℕ, zero, suc, ◌+◌, ◌*◌, ◌/◌, ◌%◌, ◌^◌, ◌<◌, ◌≤◌, ◌≡◌, refl, sym, ap, ap₂, ◌∙◌, List, [], ◌∷◌,
  arith, length, All,
}
use embedded_tls.Prelude.Words.{IsByte, of_be32, of_be32-be32}
use embedded_tls.Exec.{Result, ok}
use embedded_tls.Error.{TlsError}
use embedded_tls.KeySchedule.{
  KeyScheduleState, iv_len, be64, xor_bits, xor_all, nonce_of, get_nonce,
}

-- a counter as a nonce holds it
abbrev pub padded : ℕ → List ℕ
padded n = 0 ∷ 0 ∷ 0 ∷ 0 ∷ be64 n

nonce_of_lem : (counter : ℕ) (iv : List ℕ) → nonce_of counter iv ≡ ok (xor_all iv (padded counter))
unfolding nonce_of
nonce_of_lem counter iv = refl

-- The nonce is the IV with the counter on its last eight bytes; nothing panics.
pub get_nonce_lem : (s : KeyScheduleState) → get_nonce s ≡ ok (xor_all s.iv (padded s.counter))
unfolding get_nonce
get_nonce_lem s = nonce_of_lem s.counter s.iv

xor_bits_injective : (k a b c : ℕ) → b < 2 ^ k → c < 2 ^ k → xor_bits k a b ≡ xor_bits k a c → b ≡ c
xor_bits_injective zero a b c hb hc e = omega arith
xor_bits_injective (suc k) a b c hb hc e =
    let same =
      xor_bits_injective k (a / 2) (b / 2) (c / 2) (omega arith) (omega arith) (omega arith) in
    omega arith

head_or : ℕ → List ℕ → ℕ
head_or d [] = d
head_or d (x ∷ xs) = x

tail_of : List ℕ → List ℕ
tail_of [] = []
tail_of (x ∷ xs) = xs

xor_all_injective :
    (iv xs ys : List ℕ)
    → length xs ≤ length iv
    → length xs ≡ length ys
    → All IsByte xs
    → All IsByte ys
    → xor_all iv xs ≡ xor_all iv ys
    → xs ≡ ys
unfolding head_or tail_of
xor_all_injective iv [] [] h n bx by e = refl
xor_all_injective iv [] (y ∷ ys) h n bx by e = absurd (omega arith)
xor_all_injective iv (x ∷ xs) [] h n bx by e = absurd (omega arith)
xor_all_injective [] (x ∷ xs) (y ∷ ys) h n bx by e = absurd (omega arith)
xor_all_injective (i ∷ iv) (x ∷ xs) (y ∷ ys) h n (bx, bxs) (by, bys) e =
    ap₂ (λ a t. a ∷ t) (xor_bits_injective 8 i x y bx by (ap (head_or 0) e))
      (xor_all_injective iv xs ys (omega arith) (omega arith) bxs bys (ap tail_of e))

padded-IsByte : (n : ℕ) → All IsByte (padded n)
padded-IsByte n = (
  omega arith,
  (
    omega arith,
    (
      omega arith,
      (
        omega arith,
        (
          omega arith,
          (
            omega arith,
            (
              omega arith,
              (omega arith, (omega arith, (omega arith, (omega arith, (omega arith, tt))))),
            ),
          ),
        ),
      ),
    ),
  ),
)

-- the counter that a padded counter holds
of_padded : List ℕ → ℕ
of_padded (_ ∷ _ ∷ _ ∷ _ ∷ a ∷ b ∷ c ∷ d ∷ e ∷ f ∷ g ∷ h ∷ []) =
    of_be32 a b c d * 2 ^ 32 + of_be32 e f g h
of_padded _ = 0

of_padded-padded : (n : ℕ) → n < 2 ^ 64 → of_padded (padded n) ≡ n
unfolding of_padded
of_padded-padded n h =
    let high = of_be32-be32 (n / 2 ^ 32) (omega arith) in
    let low = of_be32-be32 (n % 2 ^ 32) (omega arith) in omega arith

ok_value : {A : Type 0} → A → Result TlsError A → A
ok_value d (ok a) = a
ok_value d r = d

-- Under one IV of the full length, two counters below 2^64 with the same nonce are the same
-- counter.
pub get_nonce_injective :
    (s : KeyScheduleState) (c d : ℕ)
    → length s.iv ≡ iv_len
    → c < 2 ^ 64
    → d < 2 ^ 64
    → get_nonce (record s { counter = c }) ≡ get_nonce (record s { counter = d })
    → c ≡ d
unfolding get_nonce ok_value
get_nonce_injective s c d n hc hd e =
    let same : xor_all s.iv (padded c) ≡ xor_all s.iv (padded d) =
      ap (ok_value []) (sym (nonce_of_lem c s.iv) ∙ e ∙ nonce_of_lem d s.iv) in
    sym (of_padded-padded c hc)
    ∙ ap of_padded (
        xor_all_injective s.iv (padded c) (padded d) (omega arith) refl (padded-IsByte c)
          (padded-IsByte d) same)
    ∙ of_padded-padded d hd
