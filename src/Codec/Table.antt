-- ===== src/Codec/Table.antt =====
-- A `match` on a number with one arm for each code, as the list of its arms in order.
use embedded_tls.Prelude.{
  ℕ, ◌≡◌, refl, subst, List, [], ◌∷◌, Option, none, some, All, ◌==◌, if◌then◌else◌, arith,
}
use mathlib.Core.Option.{some-injective}
use embedded_tls.Exec.{Exec, pure, raise}
use embedded_tls.Parse.Total.{Total, Total-pure, Total-raise}
use embedded_tls.Parse.Parses.{Parses, Parses-pure}

module _ {A : Type 0} where
  unfoldable pub find_code : List (ℕ × A) → ℕ → Option A
  find_code [] n = none
  find_code ((c, a) ∷ arms) n = if n == c then some a else find_code arms n

  -- What the match gives is an element whose code was read.
  pub find_code_sound :
      (code : A → ℕ) (arms : List (ℕ × A)) (n : ℕ) (a : A)
      → All (λ e. code e.1 ≡ e.0) arms
      → find_code arms n ≡ some a
      → code a ≡ n
  unfolding find_code
  find_code_sound code [] n a h e = cc
  find_code_sound code ((c, b) ∷ arms) n a h e = ground (arith, find_code_sound code arms n a)

module _ {S E A : Type 0} where
  -- `ok_or`
  unfoldable pub ok_or : E → Option A → Exec S E A
  ok_or e none = raise e
  ok_or e (some a) = pure a

module _ {E A : Type 0} where
  pub Total-ok_or : (e : E) (o : Option A) → Total 0 (λ a. o ≡ some a) (ok_or e o)
  unfolding ok_or
  Total-ok_or e none = Total-raise e
  Total-ok_or e (some a) = Total-pure a refl

  pub Parses-ok_or : (e : E) (o : Option A) {a : A} → o ≡ some a → Parses (ok_or e o) a []
  unfolding ok_or
  Parses-ok_or e none h = cc
  Parses-ok_or e (some b) h =
      subst (λ c. Parses {E = E} (pure b) c []) (some-injective _ _ h) (Parses-pure b)
