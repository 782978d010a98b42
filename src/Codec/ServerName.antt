-- ===== src/Codec/ServerName.antt =====
-- src/extensions/extension_data/server_name.rs. A `&str` is the list of its bytes; every list of ASCII
-- bytes is UTF-8, so `from_utf8` behind `is_ascii` gives the same bytes.
use mathlib.Core.List.{flat_map}
use embedded_tls.Prelude.{
  ℕ, ◌^◌, ◌≤◌, ◌<◌, ◌≡◌, refl, Bool, true, false, ◌&&◌, List, [], ◌∷◌, ◌++◌, arith, length, All,
  All-map, ltb, if◌then◌else◌,
}
use embedded_tls.Prelude.Words.{be16}
use embedded_tls.Exec.{pure, raise, map_err, ◌>>=◌, ◌>>◌}
use embedded_tls.Error.{encode_error, invalid_data}
use embedded_tls.Heapless.{Heapless}
use embedded_tls.Buffer.{Write, push, extend_from_slice, with_u16_length}
use embedded_tls.Buffer.Encodes.{
  Encodes, Encodes-bind, Encodes-push, Encodes-map_err, Encodes-extend_from_slice,
}
use embedded_tls.Buffer.Lengths.{Encodes-with_u16_length}
use embedded_tls.Parse.{Read, new, read_u8, read_u16, slice}
use embedded_tls.Parse.Total.{
  Total, Total-then, Total-any, Total-pure, Total-raise, Total-read_u8, Total-read_u16, Total-slice,
}
use embedded_tls.Parse.Parses.{
  Parses, Parses-bind, Parses-end, Parses-pure, Parses-read_u8, Parses-read_u16, Parses-slice,
}
use embedded_tls.Codec.Table.{find_code, ok_or, Total-ok_or, Parses-ok_or}
use embedded_tls.Codec.Lists.{
  list16, write_list16, read_list16, Encodes-write_list16, Parses-read_list16, Total-read_list16,
}

pub data NameType : Type 0 where
  host_name : NameType

unfoldable pub name_type_code : NameType → ℕ
name_type_code host_name = 0

pub read_name_type : Read NameType
unfolding find_code
read_name_type = do n ← read_u8; ok_or invalid_data (find_code ((0, host_name) ∷ []) n)

pub write_name_type : NameType → Write (Unit {0})
write_name_type t = map_err (λ _. encode_error) (push (name_type_code t))

pub record ServerName : Type 0 where
  pub name_type : NameType
  pub name : List ℕ

unfoldable pub is_ascii : List ℕ → Bool
is_ascii [] = true
is_ascii (b ∷ bs) = ltb b 128 && is_ascii bs

checked_name : NameType → List ℕ → Read ServerName
checked_name t name =
    if is_ascii name then pure (record { name_type = t; name = name }) else raise invalid_data

pub read_server_name : Read ServerName
read_server_name = do
  name_type ← read_name_type
  name_len ← read_u16
  name ← slice name_len
  checked_name name_type name.buffer

pub write_server_name : ServerName → Write (Unit {0})
write_server_name s =
    write_name_type s.name_type
    >> map_err (λ _. encode_error) (with_u16_length (extend_from_slice s.name))

pub write_server_names : List ServerName → Write (Unit {0})
write_server_names = write_list16 write_server_name

module _ ⦃h : Heapless⦄ where
  pub read_server_names : ℕ → Read (List ServerName)
  read_server_names n = read_list16 n read_server_name

abbrev pub server_name_bytes : ServerName → List ℕ
server_name_bytes s = name_type_code s.name_type ∷ (be16 (length s.name) ++ s.name)

pub Encodes-write_server_name :
    (s : ServerName) → Encodes (write_server_name s) (server_name_bytes s)
unfolding write_server_name write_name_type
Encodes-write_server_name s =
    Encodes-bind (Encodes-map_err _ (Encodes-push (name_type_code s.name_type)))
      (Encodes-map_err _ (Encodes-with_u16_length (Encodes-extend_from_slice s.name)))

Parses-read_name_type : (t : NameType) → Parses read_name_type t (name_type_code t ∷ [])
unfolding read_name_type name_type_code
Parses-read_name_type host_name = Parses-bind _ (Parses-read_u8 0) (Parses-ok_or _ _ refl)

Parses-checked_name :
    (s : ServerName) → is_ascii s.name ≡ true → Parses (checked_name s.name_type s.name) s []
unfolding checked_name
Parses-checked_name s ascii = rw ascii (Parses-pure s)

Parses-read_server_name :
    (s : ServerName)
    → (is_ascii s.name ≡ true) × (length s.name < 2 ^ 16)
    → Parses read_server_name s (server_name_bytes s)
unfolding read_server_name new
Parses-read_server_name s (ascii, short) = Parses-bind _ (Parses-read_name_type s.name_type) (
    Parses-bind _ (Parses-read_u16 (length s.name) short)
      (Parses-end _ (Parses-slice s.name) (Parses-checked_name s ascii)))

Total-read_name_type : Total 1 (λ _. Unit {0}) read_name_type
unfolding read_name_type
Total-read_name_type = Total-then Total-read_u8 (λ n _. Total-any (Total-ok_or _ _))

Total-checked_name : (t : NameType) (name : List ℕ) → Total 0 (λ _. Unit {0}) (checked_name t name)
unfolding checked_name
Total-checked_name t name = branch (is_ascii name)
  where
    branch :
        (b : Bool)
        → Total {A = ServerName} 0
            (λ _. Unit {0})
            (if b then pure (record { name_type = t; name = name }) else raise invalid_data)
    branch true = Total-pure _ tt
    branch false = Total-raise _

pub Total-read_server_name : Total 1 (λ _. Unit {0}) read_server_name
unfolding read_server_name
Total-read_server_name = Total-then Total-read_name_type (λ t _. Total-any (
    Total-then Total-read_u16
      (λ n _. Total-then (Total-any (Total-slice n)) (λ q _. Total-checked_name t q.buffer))))

module _ ⦃h : Heapless⦄ where
  -- The parser of server names returns on any input and for any capacity: it does not panic or
  -- loop, its cursor stays inside the bytes, and a success has read two bytes at least.
  pub Total-read_server_names : (n : ℕ) → Total 2 (λ _. Unit {0}) (read_server_names n)
  unfolding read_server_names
  Total-read_server_names n = Total-read_list16 n read_server_name Total-read_server_name

  -- A list of server names, each of ASCII bytes and shorter than 2^16 bytes, no longer than
  -- the capacity of the vector and encoded in fewer than 2^16 bytes, is encoded as exactly its
  -- bytes and read back from them.
  pub server_names-round_trip :
      (n : ℕ) (xs : List ServerName)
      → All (λ s. (is_ascii s.name ≡ true) × (length s.name < 2 ^ 16)) xs
      → length xs ≤ n
      → length (flat_map server_name_bytes xs) < 2 ^ 16
      → Encodes (write_server_names xs) (list16 server_name_bytes xs)
        × Parses (read_server_names n) xs (list16 server_name_bytes xs)
  unfolding write_server_names read_server_names
  server_names-round_trip n xs names fit short = (
    Encodes-write_list16 Encodes-write_server_name xs,
    Parses-read_list16 n read_server_name server_name_bytes xs
        (All-map Parses-read_server_name xs names) (λ _. omega arith) fit short,
  )

pub Encodes-write_server_names :
    (ss : List ServerName) → Encodes (write_server_names ss) (list16 server_name_bytes ss)
unfolding write_server_names
Encodes-write_server_names ss = Encodes-write_list16 Encodes-write_server_name ss
