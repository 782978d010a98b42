-- ===== src/Codec/Vectors/Bounds.antt =====
-- The parsers of the list extensions on any input.
use embedded_tls.Prelude.{ℕ}
use embedded_tls.Heapless.{Heapless}
use embedded_tls.Parse.Total.{
  Total, Total-then, Total-any, Total-pure, Total-read_u8, Total-read_u16,
}
use embedded_tls.Codec.Table.{Total-ok_or}
use embedded_tls.Codec.SignatureScheme
use embedded_tls.Codec.KeyShare.{read_group, Total-read_group}
use embedded_tls.Codec.Lists.{Total-read_list16, Total-read_list8}
use embedded_tls.Codec.Vectors.{
  read_scheme, read_version, read_mode, read_max_fragment_length, read_supported_groups,
  read_signature_algorithms, read_supported_versions, read_psk_modes,
}

pub Total-read_scheme : Total 2 (λ _. Unit {0}) read_scheme
unfolding read_scheme
Total-read_scheme =
    Total-then Total-read_u16 (λ n _. Total-any (Total-ok_or _ (SignatureScheme.of_code n)))

pub Total-read_version : Total 2 (λ _. Unit {0}) read_version
unfolding read_version
Total-read_version = Total-then Total-read_u16 (λ n _. Total-pure n tt)

pub Total-read_mode : Total 1 (λ _. Unit {0}) read_mode
unfolding read_mode
Total-read_mode = Total-then Total-read_u8 (λ n _. Total-any (Total-ok_or _ _))

pub Total-read_max_fragment_length : Total 1 (λ _. Unit {0}) read_max_fragment_length
unfolding read_max_fragment_length
Total-read_max_fragment_length = Total-then Total-read_u8 (λ n _. Total-any (Total-ok_or _ _))

module _ ⦃h : Heapless⦄ (n : ℕ) where
  pub Total-read_supported_groups : Total 2 (λ _. Unit {0}) (read_supported_groups n)
  unfolding read_supported_groups
  Total-read_supported_groups = Total-read_list16 n read_group Total-read_group

  -- The parser of signature algorithms returns on any input and for any capacity: it does not
  -- panic or loop, its cursor stays inside the bytes, and a success has read two bytes at
  -- least.
  pub Total-read_signature_algorithms : Total 2 (λ _. Unit {0}) (read_signature_algorithms n)
  unfolding read_signature_algorithms
  Total-read_signature_algorithms = Total-read_list16 n read_scheme Total-read_scheme

  -- The parser of supported versions returns on any input and for any capacity: it does not
  -- panic or loop, its cursor stays inside the bytes, and a success has read a byte at least.
  pub Total-read_supported_versions : Total 1 (λ _. Unit {0}) (read_supported_versions n)
  unfolding read_supported_versions
  Total-read_supported_versions = Total-read_list8 n read_version Total-read_version

  pub Total-read_psk_modes : Total 1 (λ _. Unit {0}) (read_psk_modes n)
  unfolding read_psk_modes
  Total-read_psk_modes = Total-read_list8 n read_mode Total-read_mode
