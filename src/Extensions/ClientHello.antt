-- ===== src/Extensions/ClientHello.antt =====
-- src/extensions/messages.rs: `ClientHelloExtension`, and its `encode` of
-- src/extensions/extension_group_macro.rs. A client does not parse this group.
use mathlib.Core.List.{flat_map}
use embedded_tls.Prelude.{ℕ, ◌+◌, ◌*◌, List, [], ◌∷◌, ◌++◌, length, replicate}
use embedded_tls.Prelude.Words.{be16, be32, as_u16}
use embedded_tls.Exec.{map_err, for_each, ◌>>◌}
use embedded_tls.Error.{encode_error}
use embedded_tls.Buffer.{Write, push, push_u16, push_u32, extend_from_slice, with_u16_length}
use embedded_tls.Buffer.Encodes.{
  Encodes, Encodes-push, Encodes-push_u16, Encodes-push_u32, Encodes-extend_from_slice,
  Encodes-bind, Encodes-map_err, Encodes-for_each,
}
use embedded_tls.Buffer.Lengths.{Encodes-with_u16_length}
use embedded_tls.Codec.ExtensionType as ExtensionTypes
use embedded_tls.Codec.ExtensionType.{ExtensionType}
use embedded_tls.Codec.NamedGroup.{NamedGroup}
use embedded_tls.Codec.SignatureScheme.{SignatureScheme}
use embedded_tls.Codec.Lists.{list8, list16}
use embedded_tls.Codec.KeyShare.{
  KeyShareClientHello, entry_bytes, group_bytes, write_client_hello, Encodes-write_client_hello,
}
use embedded_tls.Codec.ServerName.{
  ServerName, server_name_bytes, write_server_names, Encodes-write_server_names,
}
use embedded_tls.Codec.Vectors.{
  PskKeyExchangeMode, MaxFragmentLength, fragment_code, write_supported_groups,
  write_signature_algorithms, write_signature_algorithms_cert, write_supported_versions,
  write_psk_modes, write_max_fragment_length,
}
use embedded_tls.Codec.Vectors.RoundTrip.{
  scheme_bytes, mode_bytes, max_fragment_length-round_trip, Encodes-write_supported_groups,
  Encodes-write_signature_algorithms, Encodes-write_signature_algorithms_cert,
  Encodes-write_supported_versions, Encodes-write_psk_modes,
}
use embedded_tls.Extensions.Data.{protocol_bytes, write_alpn, Encodes-write_alpn}

pub record PreSharedKeyClientHello : Type 0 where
  pub identities : List (List ℕ)
  pub hash_size : ℕ

-- The ticket age is 0.
pub write_identity : List ℕ → Write (Unit {0})
write_identity identity =
    map_err (λ _. encode_error) (with_u16_length (extend_from_slice identity))
    >> map_err (λ _. encode_error) (push_u32 0)

-- `PreSharedKeyClientHello::encode`: zeros stand for the binders, which are computed later.
pub write_pre_shared_key : PreSharedKeyClientHello → Write (Unit {0})
write_pre_shared_key x =
    let binders_len = (1 + x.hash_size) * length x.identities in
    map_err (λ _. encode_error) (with_u16_length (for_each write_identity x.identities))
    >> (map_err (λ _. encode_error) (push_u16 (as_u16 binders_len))
        >> for_each (λ zero. map_err (λ _. encode_error) (push zero)) (replicate binders_len 0))

-- `Unimplemented::encode`
pub write_unimplemented : List ℕ → Write (Unit {0})
write_unimplemented bytes = extend_from_slice bytes

pub data ClientHelloExtension : Type 0 where
  server_name : List ServerName → ClientHelloExtension
  supported_versions : List ℕ → ClientHelloExtension
  signature_algorithms : List SignatureScheme → ClientHelloExtension
  supported_groups : List NamedGroup → ClientHelloExtension
  key_share : KeyShareClientHello → ClientHelloExtension
  pre_shared_key : PreSharedKeyClientHello → ClientHelloExtension
  psk_key_exchange_modes : List PskKeyExchangeMode → ClientHelloExtension
  signature_algorithms_cert : List SignatureScheme → ClientHelloExtension
  max_fragment_length : MaxFragmentLength → ClientHelloExtension
  status_request : List ℕ → ClientHelloExtension
  use_srtp : List ℕ → ClientHelloExtension
  heartbeat : List ℕ → ClientHelloExtension
  application_layer_protocol_negotiation : List (List ℕ) → ClientHelloExtension
  signed_certificate_timestamp : List ℕ → ClientHelloExtension
  client_certificate_type : List ℕ → ClientHelloExtension
  server_certificate_type : List ℕ → ClientHelloExtension
  padding : List ℕ → ClientHelloExtension
  early_data : List ℕ → ClientHelloExtension
  cookie : List ℕ → ClientHelloExtension
  certificate_authorities : List ℕ → ClientHelloExtension
  oid_filters : List ℕ → ClientHelloExtension
  post_handshake_auth : List ℕ → ClientHelloExtension

unfoldable pub extension_type : ClientHelloExtension → ExtensionType
extension_type (server_name _) = ExtensionType.server_name
extension_type (supported_versions _) = ExtensionType.supported_versions
extension_type (signature_algorithms _) = ExtensionType.signature_algorithms
extension_type (supported_groups _) = ExtensionType.supported_groups
extension_type (key_share _) = ExtensionType.key_share
extension_type (pre_shared_key _) = ExtensionType.pre_shared_key
extension_type (psk_key_exchange_modes _) = ExtensionType.psk_key_exchange_modes
extension_type (signature_algorithms_cert _) = ExtensionType.signature_algorithms_cert
extension_type (max_fragment_length _) = ExtensionType.max_fragment_length
extension_type (status_request _) = ExtensionType.status_request
extension_type (use_srtp _) = ExtensionType.use_srtp
extension_type (heartbeat _) = ExtensionType.heartbeat
extension_type (application_layer_protocol_negotiation _) =
    ExtensionType.application_layer_protocol_negotiation
extension_type (signed_certificate_timestamp _) = ExtensionType.signed_certificate_timestamp
extension_type (client_certificate_type _) = ExtensionType.client_certificate_type
extension_type (server_certificate_type _) = ExtensionType.server_certificate_type
extension_type (padding _) = ExtensionType.padding
extension_type (early_data _) = ExtensionType.early_data
extension_type (cookie _) = ExtensionType.cookie
extension_type (certificate_authorities _) = ExtensionType.certificate_authorities
extension_type (oid_filters _) = ExtensionType.oid_filters
extension_type (post_handshake_auth _) = ExtensionType.post_handshake_auth

abbrev pub encode_data : ClientHelloExtension → Write (Unit {0})
encode_data (server_name x) = write_server_names x
encode_data (supported_versions x) = write_supported_versions x
encode_data (signature_algorithms x) = write_signature_algorithms x
encode_data (supported_groups x) = write_supported_groups x
encode_data (key_share x) = write_client_hello x
encode_data (pre_shared_key x) = write_pre_shared_key x
encode_data (psk_key_exchange_modes x) = write_psk_modes x
encode_data (signature_algorithms_cert x) = write_signature_algorithms_cert x
encode_data (max_fragment_length x) = write_max_fragment_length x
encode_data (status_request x) = write_unimplemented x
encode_data (use_srtp x) = write_unimplemented x
encode_data (heartbeat x) = write_unimplemented x
encode_data (application_layer_protocol_negotiation x) = write_alpn x
encode_data (signed_certificate_timestamp x) = write_unimplemented x
encode_data (client_certificate_type x) = write_unimplemented x
encode_data (server_certificate_type x) = write_unimplemented x
encode_data (padding x) = write_unimplemented x
encode_data (early_data x) = write_unimplemented x
encode_data (cookie x) = write_unimplemented x
encode_data (certificate_authorities x) = write_unimplemented x
encode_data (oid_filters x) = write_unimplemented x
encode_data (post_handshake_auth x) = write_unimplemented x

-- `encode`, with the type by `ExtensionType::encode`
pub encode : ClientHelloExtension → Write (Unit {0})
encode x =
    map_err (λ _. encode_error) (push_u16 (ExtensionTypes.as_u16 (extension_type x)))
    >> with_u16_length (encode_data x)

abbrev pub identity_bytes : List ℕ → List ℕ
identity_bytes identity = (be16 (length identity) ++ identity) ++ be32 0

abbrev pub one_byte : ℕ → List ℕ
one_byte n = n ∷ []

abbrev pub pre_shared_key_bytes : PreSharedKeyClientHello → List ℕ
pre_shared_key_bytes x =
    let binders_len = (1 + x.hash_size) * length x.identities in
    list16 identity_bytes x.identities
    ++ (be16 (as_u16 binders_len) ++ flat_map one_byte (replicate binders_len 0))

abbrev key_share_bytes : KeyShareClientHello → List ℕ
key_share_bytes x = list16 entry_bytes x.client_shares

abbrev fragment_bytes : MaxFragmentLength → List ℕ
fragment_bytes m = fragment_code m ∷ []

abbrev alpn_bytes : List (List ℕ) → List ℕ
alpn_bytes ps = list16 protocol_bytes ps

abbrev unimplemented_bytes : List ℕ → List ℕ
unimplemented_bytes bytes = bytes

abbrev pub data_bytes : ClientHelloExtension → List ℕ
data_bytes (server_name x) = list16 server_name_bytes x
data_bytes (supported_versions x) = list8 be16 x
data_bytes (signature_algorithms x) = list16 scheme_bytes x
data_bytes (supported_groups x) = list16 group_bytes x
data_bytes (key_share x) = key_share_bytes x
data_bytes (pre_shared_key x) = pre_shared_key_bytes x
data_bytes (psk_key_exchange_modes x) = list8 mode_bytes x
data_bytes (signature_algorithms_cert x) = list16 scheme_bytes x
data_bytes (max_fragment_length x) = fragment_bytes x
data_bytes (status_request x) = unimplemented_bytes x
data_bytes (use_srtp x) = unimplemented_bytes x
data_bytes (heartbeat x) = unimplemented_bytes x
data_bytes (application_layer_protocol_negotiation x) = alpn_bytes x
data_bytes (signed_certificate_timestamp x) = unimplemented_bytes x
data_bytes (client_certificate_type x) = unimplemented_bytes x
data_bytes (server_certificate_type x) = unimplemented_bytes x
data_bytes (padding x) = unimplemented_bytes x
data_bytes (early_data x) = unimplemented_bytes x
data_bytes (cookie x) = unimplemented_bytes x
data_bytes (certificate_authorities x) = unimplemented_bytes x
data_bytes (oid_filters x) = unimplemented_bytes x
data_bytes (post_handshake_auth x) = unimplemented_bytes x

abbrev pub bytes : ClientHelloExtension → List ℕ
bytes x =
    be16 (ExtensionTypes.as_u16 (extension_type x))
    ++ (be16 (length (data_bytes x)) ++ data_bytes x)

Encodes-write_identity :
    (identity : List ℕ) → Encodes (write_identity identity) (identity_bytes identity)
unfolding write_identity
Encodes-write_identity identity =
    Encodes-bind (Encodes-map_err _ (Encodes-with_u16_length (Encodes-extend_from_slice identity)))
      (Encodes-map_err _ (Encodes-push_u32 0))

pub Encodes-write_pre_shared_key :
    (x : PreSharedKeyClientHello) → Encodes (write_pre_shared_key x) (pre_shared_key_bytes x)
unfolding write_pre_shared_key
Encodes-write_pre_shared_key x =
    Encodes-bind
      (Encodes-map_err _
        (Encodes-with_u16_length (Encodes-for_each Encodes-write_identity x.identities)))
      (Encodes-bind (Encodes-map_err _ (Encodes-push_u16 _))
        (Encodes-for_each (λ z. Encodes-map_err _ (Encodes-push z)) _))

Encodes-write_unimplemented : (bytes : List ℕ) → Encodes (write_unimplemented bytes) bytes
unfolding write_unimplemented
Encodes-write_unimplemented bytes = Encodes-extend_from_slice bytes

Encodes-write_max_fragment_length :
    (m : MaxFragmentLength) → Encodes (write_max_fragment_length m) (fragment_bytes m)
Encodes-write_max_fragment_length m = (max_fragment_length-round_trip m).0

Encodes-encode_data : (x : ClientHelloExtension) → Encodes (encode_data x) (data_bytes x)
Encodes-encode_data (server_name x) = Encodes-write_server_names x
Encodes-encode_data (supported_versions x) = Encodes-write_supported_versions x
Encodes-encode_data (signature_algorithms x) = Encodes-write_signature_algorithms x
Encodes-encode_data (supported_groups x) = Encodes-write_supported_groups x
Encodes-encode_data (key_share x) = Encodes-write_client_hello x
Encodes-encode_data (pre_shared_key x) = Encodes-write_pre_shared_key x
Encodes-encode_data (psk_key_exchange_modes x) = Encodes-write_psk_modes x
Encodes-encode_data (signature_algorithms_cert x) = Encodes-write_signature_algorithms_cert x
Encodes-encode_data (max_fragment_length x) = Encodes-write_max_fragment_length x
Encodes-encode_data (status_request x) = Encodes-write_unimplemented x
Encodes-encode_data (use_srtp x) = Encodes-write_unimplemented x
Encodes-encode_data (heartbeat x) = Encodes-write_unimplemented x
Encodes-encode_data (application_layer_protocol_negotiation x) = Encodes-write_alpn x
Encodes-encode_data (signed_certificate_timestamp x) = Encodes-write_unimplemented x
Encodes-encode_data (client_certificate_type x) = Encodes-write_unimplemented x
Encodes-encode_data (server_certificate_type x) = Encodes-write_unimplemented x
Encodes-encode_data (padding x) = Encodes-write_unimplemented x
Encodes-encode_data (early_data x) = Encodes-write_unimplemented x
Encodes-encode_data (cookie x) = Encodes-write_unimplemented x
Encodes-encode_data (certificate_authorities x) = Encodes-write_unimplemented x
Encodes-encode_data (oid_filters x) = Encodes-write_unimplemented x
Encodes-encode_data (post_handshake_auth x) = Encodes-write_unimplemented x

pub Encodes-encode : (x : ClientHelloExtension) → Encodes (encode x) (bytes x)
unfolding encode
Encodes-encode x =
    Encodes-bind (Encodes-map_err _ (Encodes-push_u16 _))
      (Encodes-with_u16_length (Encodes-encode_data x))
