-- ===== src/Digest.antt =====
-- What the code relies on of the crate digest: a hash that is fed piece by piece and can be finalized at
-- any point, on a copy (`clone`).
use embedded_tls.Prelude.{ℕ, ◌<◌, ◌≡◌, List, ◌++◌, length}

pub record Digest : Type 1 where
  pub State : Type 0
  pub new : State
  pub update : State → List ℕ → State
  pub finalize : State → List ℕ
  pub output_size : ℕ
  pub output_size_small : output_size < 256
  pub length-finalize : (h : State) → length (finalize h) ≡ output_size
  pub update-update : (h : State) (xs ys : List ℕ) → update (update h xs) ys ≡ update h (xs ++ ys)
