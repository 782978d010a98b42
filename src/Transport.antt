-- ===== src/Transport.antt =====
-- What the code relies on of `embedded_io::Read` and `embedded_io::Write`: a transport with a state of its own.
-- `read_some` is told the length of the slice and gives the bytes that it put there; an error is its kind.
use embedded_tls.Prelude.{ℕ, List}
use embedded_tls.Exec.{Exec}

pub record Transport : Type 1 where
  pub State : Type 0
  pub read_some : ℕ → Exec State ℕ (List ℕ)
  pub write_all : List ℕ → Exec State ℕ (Unit {0})
  pub flush : Exec State ℕ (Unit {0})
