-- ===== src/Codec/KeyShare.antt =====
-- src/extensions/extension_data/key_share.rs.
use mathlib.Core.List.{flat_map}
use embedded_tls.Prelude.{ℕ, ◌^◌, ◌≤◌, ◌<◌, List, ◌++◌, arith, length, All, All-map}
use embedded_tls.Prelude.Words.{be16}
use embedded_tls.Exec.{pure, map_err, ◌>>=◌, ◌>>◌}
use embedded_tls.Error.{encode_error, invalid_data}
use embedded_tls.Heapless.{Heapless}
use embedded_tls.Buffer.{Write, push_u16, extend_from_slice, with_u16_length}
use embedded_tls.Buffer.Encodes.{
  Encodes, Encodes-push_u16, Encodes-bind, Encodes-map_err, Encodes-extend_from_slice,
}
use embedded_tls.Buffer.Lengths.{Encodes-with_u16_length}
use embedded_tls.Parse.{Read, new, read_u16, slice}
use embedded_tls.Parse.Total.{
  Total, Total-bind, Total-pure, Total-read_u16, Total-slice, Total-then, Total-any,
}
use embedded_tls.Parse.Parses.{
  Parses, Parses-bind, Parses-end, Parses-pure, Parses-read_u16, Parses-slice,
}
use embedded_tls.Codec.Table.{ok_or, Total-ok_or, Parses-ok_or}
use embedded_tls.Codec.NamedGroup
use embedded_tls.Codec.NamedGroup.{NamedGroup}
use embedded_tls.Codec.Lists.{
  list16, write_list16, read_list16, Encodes-write_list16, Parses-read_list16, Total-read_list16,
}

pub read_group : Read NamedGroup
read_group = do n ← read_u16; ok_or invalid_data (NamedGroup.of_code n)

pub write_group : NamedGroup → Write (Unit {0})
write_group g = map_err (λ _. encode_error) (push_u16 (NamedGroup.as_u16 g))

abbrev pub group_bytes : NamedGroup → List ℕ
group_bytes g = be16 (NamedGroup.as_u16 g)

pub Encodes-write_group : (g : NamedGroup) → Encodes (write_group g) (group_bytes g)
unfolding write_group
Encodes-write_group g = Encodes-map_err _ (Encodes-push_u16 (NamedGroup.as_u16 g))

pub Parses-read_group : (g : NamedGroup) → Parses read_group g (group_bytes g)
unfolding read_group
Parses-read_group g =
    Parses-bind _ (Parses-read_u16 (NamedGroup.as_u16 g) (NamedGroup.as_u16-lt g))
      (Parses-ok_or _ _ (NamedGroup.of_code-as_u16 g))

pub Total-read_group : Total 2 (λ g. Unit {0}) read_group
unfolding read_group
Total-read_group =
    Total-then Total-read_u16 (λ n _. Total-any (Total-ok_or _ (NamedGroup.of_code n)))

pub record KeyShareEntry : Type 0 where
  pub group : NamedGroup
  pub opaque : List ℕ

pub read_entry : Read KeyShareEntry
read_entry = do
  group ← read_group
  opaque_len ← read_u16
  opaque ← slice opaque_len
  pure (record { group = group; opaque = opaque.buffer })

pub write_entry : KeyShareEntry → Write (Unit {0})
write_entry e =
    write_group e.group
    >> map_err (λ _. encode_error) (with_u16_length (extend_from_slice e.opaque))

abbrev pub entry_bytes : KeyShareEntry → List ℕ
entry_bytes e = group_bytes e.group ++ (be16 (length e.opaque) ++ e.opaque)

pub Encodes-write_entry : (e : KeyShareEntry) → Encodes (write_entry e) (entry_bytes e)
unfolding write_entry
Encodes-write_entry e =
    Encodes-bind (Encodes-write_group e.group)
      (Encodes-map_err _ (Encodes-with_u16_length (Encodes-extend_from_slice e.opaque)))

pub Parses-read_entry :
    (e : KeyShareEntry) → length e.opaque < 2 ^ 16 → Parses read_entry e (entry_bytes e)
unfolding read_entry new
Parses-read_entry e h = Parses-bind _ (Parses-read_group e.group) (
    Parses-bind _ (Parses-read_u16 (length e.opaque) h)
      (Parses-end _ (Parses-slice e.opaque) (Parses-pure e)))

pub Total-read_entry : Total 4 (λ e. Unit {0}) read_entry
unfolding read_entry
Total-read_entry = Total-bind Total-read_group (λ g _.
    Total-then Total-read_u16
      (λ n _. Total-then (Total-any (Total-slice n)) (λ q _. Total-pure _ tt)))

-- `KeyShareServerHello` is one entry.
pub record KeyShareServerHello : Type 0 where
  pub share : KeyShareEntry

pub read_server_hello : Read KeyShareServerHello
read_server_hello = do e ← read_entry; pure (record { share = e })

-- The parser of the key share of a ServerHello returns on any input: it does not panic, its
-- cursor stays inside the bytes and only moves forward, and a success has read four bytes at
-- least.
pub Total-read_server_hello : Total 4 (λ e. Unit {0}) read_server_hello
unfolding read_server_hello
Total-read_server_hello = Total-then Total-read_entry (λ e _. Total-pure _ tt)

pub record KeyShareClientHello : Type 0 where
  pub client_shares : List KeyShareEntry

module _ ⦃h : Heapless⦄ where
  pub read_client_hello : ℕ → Read KeyShareClientHello
  read_client_hello n = do xs ← read_list16 n read_entry; pure (record { client_shares = xs })

  -- The parser of the key shares of a ClientHello returns on any input and for any capacity:
  -- it does not panic or loop, its cursor stays inside the bytes, and a success has read two
  -- bytes at least.
  pub Total-read_client_hello : (n : ℕ) → Total 2 (λ x. Unit {0}) (read_client_hello n)
  unfolding read_client_hello
  Total-read_client_hello n =
      Total-then (Total-read_list16 n read_entry Total-read_entry) (λ xs _. Total-pure _ tt)

  -- The parser of the key shares of a ClientHello reads back the shares from their bytes,
  -- whatever follows, where there are no more than the capacity of the vector, each key has
  -- fewer than 2^16 bytes and so has the list.
  pub Parses-read_client_hello :
      (n : ℕ) (x : KeyShareClientHello)
      → All (λ e. length e.opaque < 2 ^ 16) x.client_shares
      → length x.client_shares ≤ n
      → length (flat_map entry_bytes x.client_shares) < 2 ^ 16
      → Parses (read_client_hello n) x (list16 entry_bytes x.client_shares)
  unfolding read_client_hello
  Parses-read_client_hello n x h hn hl =
      Parses-end _
        (Parses-read_list16 n read_entry entry_bytes x.client_shares
          (All-map (λ e he. Parses-read_entry e he) x.client_shares h) (λ e. omega arith) hn hl)
        (Parses-pure x)

pub write_client_hello : KeyShareClientHello → Write (Unit {0})
write_client_hello x = write_list16 write_entry x.client_shares

-- The encoder of the key shares of a ClientHello appends exactly the length of the entries
-- modulo 2^16 in two bytes and the entries, or fails for lack of room; it never panics.
pub Encodes-write_client_hello :
    (x : KeyShareClientHello) → Encodes (write_client_hello x) (list16 entry_bytes x.client_shares)
unfolding write_client_hello
Encodes-write_client_hello x = Encodes-write_list16 Encodes-write_entry x.client_shares
