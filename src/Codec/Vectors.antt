-- ===== src/Codec/Vectors.antt =====
-- The list extensions: src/extensions/extension_data/{supported_groups, signature_algorithms,
-- signature_algorithms_cert, supported_versions, psk_key_exchange_modes, max_fragment_length}.rs.
-- A struct with one `Vec` field is the list of its elements.
pub mod RoundTrip
pub mod Bounds
use mathlib.Core.List.{flat_map}
use embedded_tls.Prelude.{
  ℕ, suc, ◌+◌, ◌%◌, ◌^◌, ◌≤◌, ◌<◌, ◌≡◌, refl, List, [], ◌∷◌, ◌++◌, arith, length, All, All-map,
  All-of, Option, some, none,
}
use embedded_tls.Prelude.Words.{be16}
use embedded_tls.Exec.{Exec, pure, map_err, ◌>>=◌, ◌>>◌}
use embedded_tls.Error.{ParseError, TlsError, encode_error, invalid_data}
use embedded_tls.Heapless.{Heapless}
use embedded_tls.Buffer.{Write, push, push_u16}
use embedded_tls.Buffer.Encodes.{Encodes, Encodes-push, Encodes-push_u16, Encodes-map_err}
use embedded_tls.Parse.{ParseBuffer, Read, read_u8, read_u16}
use embedded_tls.Parse.Total.{
  Total, Total-then, Total-any, Total-pure, Total-read_u8, Total-read_u16,
}
use embedded_tls.Parse.Parses.{
  Parses, Parses-bind, Parses-end, Parses-pure, Parses-read_u8, Parses-read_u16,
}
use embedded_tls.Codec.Table.{find_code, ok_or, Total-ok_or, Parses-ok_or}
use embedded_tls.Codec.NamedGroup.{NamedGroup}
use embedded_tls.Codec.SignatureScheme
use embedded_tls.Codec.SignatureScheme.{SignatureScheme}
use embedded_tls.Codec.KeyShare.{
  read_group, write_group, group_bytes, Encodes-write_group, Parses-read_group, Total-read_group,
}
use embedded_tls.Codec.Lists.{
  list16, write_list16, read_list16, Encodes-write_list16, Parses-read_list16, Total-read_list16,
  list8, write_list8, read_list8, Encodes-write_list8, Parses-read_list8, Total-read_list8,
}

pub write_supported_groups : List NamedGroup → Write (Unit {0})
write_supported_groups = write_list16 write_group

pub read_scheme : Read SignatureScheme
read_scheme = do n ← read_u16; ok_or invalid_data (SignatureScheme.of_code n)

pub write_scheme : SignatureScheme → Write (Unit {0})
write_scheme a = map_err (λ _. encode_error) (push_u16 (SignatureScheme.as_u16 a))

pub write_signature_algorithms : List SignatureScheme → Write (Unit {0})
write_signature_algorithms = write_list16 write_scheme

-- `SignatureAlgorithmsCert` has the text of `SignatureAlgorithms`.
pub write_signature_algorithms_cert : List SignatureScheme → Write (Unit {0})
write_signature_algorithms_cert = write_list16 write_scheme

-- `ProtocolVersion` is its number.
pub read_version : Read ℕ
read_version = do v ← read_u16; pure v

pub write_version : ℕ → Write (Unit {0})
write_version v = map_err (λ _. encode_error) (push_u16 v)

pub tls13 : ℕ
tls13 = 0x0304

pub write_supported_versions : List ℕ → Write (Unit {0})
write_supported_versions = write_list8 write_version

pub data PskKeyExchangeMode : Type 0 where
  psk_ke : PskKeyExchangeMode
  psk_dhe_ke : PskKeyExchangeMode

pub mode_code : PskKeyExchangeMode → ℕ
mode_code psk_ke = 0
mode_code psk_dhe_ke = 1

pub read_mode : Read PskKeyExchangeMode
unfolding find_code
read_mode = do n ← read_u8; ok_or invalid_data (find_code ((0, psk_ke) ∷ (1, psk_dhe_ke) ∷ []) n)

pub write_mode : PskKeyExchangeMode → Write (Unit {0})
write_mode m = map_err (λ _. encode_error) (push (mode_code m))

pub write_psk_modes : List PskKeyExchangeMode → Write (Unit {0})
write_psk_modes = write_list8 write_mode

pub data MaxFragmentLength : Type 0 where
  bits9 bits10 bits11 bits12 : MaxFragmentLength

pub fragment_code : MaxFragmentLength → ℕ
fragment_code bits9 = 1
fragment_code bits10 = 2
fragment_code bits11 = 3
fragment_code bits12 = 4

pub fragment_arms : List (ℕ × MaxFragmentLength)
fragment_arms = (1, bits9) ∷ (2, bits10) ∷ (3, bits11) ∷ (4, bits12) ∷ []

pub read_max_fragment_length : Read MaxFragmentLength
unfolding fragment_arms find_code
read_max_fragment_length = do n ← read_u8; ok_or invalid_data (find_code fragment_arms n)

pub write_max_fragment_length : MaxFragmentLength → Write (Unit {0})
write_max_fragment_length m = map_err (λ _. encode_error) (push (fragment_code m))

module _ ⦃h : Heapless⦄ where
  pub read_supported_groups : ℕ → Read (List NamedGroup)
  read_supported_groups n = read_list16 n read_group

  pub read_signature_algorithms : ℕ → Read (List SignatureScheme)
  read_signature_algorithms n = read_list16 n read_scheme

  pub read_signature_algorithms_cert : ℕ → Read (List SignatureScheme)
  read_signature_algorithms_cert n = read_list16 n read_scheme

  pub read_supported_versions : ℕ → Read (List ℕ)
  read_supported_versions n = read_list8 n read_version

  pub read_psk_modes : ℕ → Read (List PskKeyExchangeMode)
  read_psk_modes n = read_list8 n read_mode
