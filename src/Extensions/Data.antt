-- ===== src/Extensions/Data.antt =====
-- The data of extensions that are read and not used: `Unimplemented`, `ServerNameResponse` and
-- `AlpnProtocolNameList` of src/extensions/extension_data.
use embedded_tls.Prelude.{
  ℕ, Bool, true, false, Bool-cases, inl, inr, List, [], ◌∷◌, ◌++◌, arith, length, ◌==◌,
  if◌then◌else◌,
}
use mathlib.Core.List.{flat_map}
use embedded_tls.Prelude.Words.{as_u8, be16}
use embedded_tls.Exec.{pure, raise, gets, map_err, for_each, ◌>>=◌, ◌>>◌}
use embedded_tls.Error.{invalid_data, encode_error}
use embedded_tls.Buffer.{Write, push, extend_from_slice, with_u16_length}
use embedded_tls.Buffer.Encodes.{
  Encodes, Encodes-bind, Encodes-push, Encodes-map_err, Encodes-extend_from_slice, Encodes-for_each,
}
use embedded_tls.Buffer.Lengths.{Encodes-with_u16_length}
use embedded_tls.Parse.{Read, is_empty, read_u8, read_u16, slice, within}
use embedded_tls.Parse.Total.{
  Total, Total-pure, Total-raise, Total-then, Total-any, Total-bind, Total-weaken, Total-read_u8,
  Total-read_u16, Total-slice, Total-within,
}
use embedded_tls.Extensions.{fold_while}
use embedded_tls.Extensions.Total.{After-fold_while}

-- `as_slice`: all bytes of the buffer, wherever its cursor is, which does not move
pub read_unimplemented : Read (List ℕ)
read_unimplemented = gets (λ p. p.buffer)

pub Total-read_unimplemented : Total 0 (λ _. Unit {0}) read_unimplemented
unfolding read_unimplemented gets pure
Total-read_unimplemented = record { at = λ p v. (Total-pure p.buffer tt).at p v }

pub read_server_name_response : Read (Unit {0})
unfolding pure raise
read_server_name_response p = if is_empty p then pure tt p else raise invalid_data p

pub Total-read_server_name_response : Total 0 (λ _. Unit {0}) read_server_name_response
unfolding read_server_name_response
Total-read_server_name_response = record {
  at = λ p v. elim (Bool-cases (is_empty p)) [
    | inl y ↦ rw y ((Total-pure tt tt).at p v)
    | inr n ↦ rw n ((Total-raise invalid_data).at p v)
  ];
}

-- one name of the list, which is read and dropped
name_of : ℕ → Read (Unit {0})
name_of name_len = if name_len == 0 then raise invalid_data else slice name_len >> pure tt

read_name : Read (Unit {0})
read_name = do name_len ← read_u8; name_of name_len

-- The names are not kept: the result is an empty list.
pub read_alpn : Read (List (List ℕ))
read_alpn = do
  list_len ← read_u16
  list_buf ← slice list_len
  _ ← within list_buf (λ p. fold_while read_name (λ acc x. pure acc) (length p.buffer) tt p)
  pure []

Total-name_of : (n : ℕ) → Total 0 (λ _. Unit {0}) (name_of n)
unfolding name_of
Total-name_of n = branch (n == 0)
  where
    branch :
        (b : Bool) → Total 0 (λ _. Unit {0}) (if b then raise invalid_data else slice n >> pure tt)
    branch true = Total-raise _
    branch false = Total-then (Total-any (Total-slice n)) (λ q _. Total-pure tt tt)

Total-read_name : Total 1 (λ _. Unit {0}) read_name
unfolding read_name
Total-read_name = Total-then Total-read_u8 (λ n _. Total-name_of n)

pub Total-read_alpn : Total 2 (λ _. Unit {0}) read_alpn
unfolding read_alpn
Total-read_alpn = Total-then Total-read_u16 (λ n _.
    Total-weaken
      (Total-bind (Total-slice n) (λ q v.
        Total-then
          (Total-any (
            Total-within q _ (
              After-fold_while read_name (λ acc x. pure acc) Total-read_name
                (λ acc x. Total-pure acc tt) (length q.buffer) tt q v (omega arith))))
          (λ x _. Total-pure [] tt)))
      (omega arith) (λ _ w. w))

write_protocol : List ℕ → Write (Unit {0})
write_protocol protocol =
    map_err (λ _. encode_error) (push (as_u8 (length protocol))) >> extend_from_slice protocol

-- `AlpnProtocolNameList::encode`: a name of 256 bytes or more is written behind a length that is cut off.
pub write_alpn : List (List ℕ) → Write (Unit {0})
write_alpn protocols = with_u16_length (for_each write_protocol protocols)

abbrev pub protocol_bytes : List ℕ → List ℕ
protocol_bytes protocol = as_u8 (length protocol) ∷ protocol

Encodes-write_protocol : (p : List ℕ) → Encodes (write_protocol p) (protocol_bytes p)
unfolding write_protocol
Encodes-write_protocol p =
    Encodes-bind (Encodes-map_err _ (Encodes-push (as_u8 (length p)))) (Encodes-extend_from_slice p)

pub Encodes-write_alpn :
    (ps : List (List ℕ))
    → let bs = flat_map protocol_bytes ps in Encodes (write_alpn ps) (be16 (length bs) ++ bs)
unfolding write_alpn
Encodes-write_alpn ps = Encodes-with_u16_length (Encodes-for_each Encodes-write_protocol ps)
