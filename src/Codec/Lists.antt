-- ===== src/Codec/Lists.antt =====
-- Lists of elements behind a length: the encoders write `with_uN_length` round a loop, the parsers read
-- the length and call `read_list`. Each extension's list is an instance.
use mathlib.Core.List.{flat_map}
use embedded_tls.Prelude.{ℕ, suc, ◌%◌, ◌^◌, ◌≤◌, ◌<◌, subst, List, ◌∷◌, ◌++◌, arith, length, All}
use embedded_tls.Prelude.Words.{be16}
use embedded_tls.Exec.{for_each, ◌>>=◌}
use embedded_tls.Heapless.{Heapless}
use embedded_tls.Buffer.{Write, with_u8_length, with_u16_length}
use embedded_tls.Buffer.Encodes.{Encodes, Encodes-for_each}
use embedded_tls.Buffer.Lengths.{Encodes-with_u8_length, Encodes-with_u16_length}
use embedded_tls.Parse.{Read, read_u8, read_u16, read_list}
use embedded_tls.Parse.Total.{
  Total, Total-then, Total-any, Total-read_u8, Total-read_u16, Total-read_list,
}
use embedded_tls.Parse.Parses.{Parses, Parses-bind, Parses-read_u8, Parses-read_u16}
use embedded_tls.Parse.Lists.{Parses-read_list}

module _ {A : Type 0} where
  -- the bytes of a list behind a `u16` and behind a `u8`
  abbrev pub list16 : (A → List ℕ) → List A → List ℕ
  list16 enc xs = be16 (length (flat_map enc xs)) ++ flat_map enc xs

  abbrev pub list8 : (A → List ℕ) → List A → List ℕ
  list8 enc xs = (length (flat_map enc xs) % 256) ∷ flat_map enc xs

  abbrev pub write_list16 : (A → Write (Unit {0})) → List A → Write (Unit {0})
  write_list16 f xs = with_u16_length (for_each f xs)

  abbrev pub write_list8 : (A → Write (Unit {0})) → List A → Write (Unit {0})
  write_list8 f xs = with_u8_length (for_each f xs)

  pub Encodes-write_list16 :
      {f : A → Write (Unit {0})} {enc : A → List ℕ}
      → ((a : A) → Encodes (f a) (enc a))
      → (xs : List A) → Encodes (write_list16 f xs) (list16 enc xs)
  Encodes-write_list16 h xs = Encodes-with_u16_length (Encodes-for_each h xs)

  pub Encodes-write_list8 :
      {f : A → Write (Unit {0})} {enc : A → List ℕ}
      → ((a : A) → Encodes (f a) (enc a))
      → (xs : List A) → Encodes (write_list8 f xs) (list8 enc xs)
  Encodes-write_list8 h xs = Encodes-with_u8_length (Encodes-for_each h xs)

module _ {A : Type 0} ⦃h : Heapless⦄ where
  -- `let data_length = buf.read_u16()? as usize; buf.read_list::<_, N>(data_length, read)?`
  unfoldable pub read_list16 : ℕ → Read A → Read (List A)
  read_list16 n read = do len ← read_u16; read_list n len read

  unfoldable pub read_list8 : ℕ → Read A → Read (List A)
  read_list8 n read = do len ← read_u8; read_list n len read

  pub Parses-read_list16 :
      (n : ℕ) (read : Read A) (enc : A → List ℕ) (xs : List A)
      → All (λ a. Parses read a (enc a)) xs
      → ((a : A) → 0 < length (enc a))
      → length xs ≤ n
      → length (flat_map enc xs) < 2 ^ 16
      → Parses (read_list16 n read) xs (list16 enc xs)
  unfolding read_list16
  Parses-read_list16 n read enc xs p b hn hl =
      Parses-bind _ (Parses-read_u16 (length (flat_map enc xs)) hl)
        (Parses-read_list n read enc xs p b hn)

  pub Parses-read_list8 :
      (n : ℕ) (read : Read A) (enc : A → List ℕ) (xs : List A)
      → All (λ a. Parses read a (enc a)) xs
      → ((a : A) → 0 < length (enc a))
      → length xs ≤ n
      → length (flat_map enc xs) < 256
      → Parses (read_list8 n read) xs (list8 enc xs)
  unfolding read_list8
  Parses-read_list8 n read enc xs p b hn hl =
      subst (λ k. Parses (read_list8 n read) xs (k ∷ flat_map enc xs)) (omega arith)
        (Parses-bind _ (Parses-read_u8 (length (flat_map enc xs)))
          (Parses-read_list n read enc xs p b hn))

  pub Total-read_list16 :
      {k : ℕ} {Q : A → Type 0} (n : ℕ) (read : Read A)
      → Total (suc k) Q read
      → Total 2 (λ xs. Unit {0}) (read_list16 n read)
  unfolding read_list16
  Total-read_list16 n read t =
      Total-then Total-read_u16 (λ len _. Total-any (Total-read_list n len read t))

  pub Total-read_list8 :
      {k : ℕ} {Q : A → Type 0} (n : ℕ) (read : Read A)
      → Total (suc k) Q read
      → Total 1 (λ xs. Unit {0}) (read_list8 n read)
  unfolding read_list8
  Total-read_list8 n read t =
      Total-then Total-read_u8 (λ len _. Total-any (Total-read_list n len read t))
