-- ===== src/Handshake/ServerHello.antt =====
-- src/handshake/server_hello.rs and src/handshake/encrypted_extensions.rs.
use embedded_tls.Prelude.{All, ◌≡◌, ◌++◌, refl, some, List, [], ◌∷◌, Option, none, some}
use embedded_tls.Exec.{Exec, pure, map_err, ◌>>=◌}
use embedded_tls.Error.{
  TlsError, invalid_handshake, invalid_session_id_length, invalid_cipher_suite,
}
use embedded_tls.Heapless.{Heapless}
use embedded_tls.Parse.{ParseBuffer, Read, lift, fill, read_u8, read_u16, slice}
use embedded_tls.Parse.Total.{
  Total, Total-any, Total-then, Total-map_err, Total-pure, Total-fill, Total-read_u8,
  Total-read_u16, Total-slice,
}
use embedded_tls.Codec.Table.{ok_or, Total-ok_or}
use embedded_tls.Error.{invalid_data}
use embedded_tls.Codec.CipherSuite.{CipherSuite, of_code}
use embedded_tls.Codec.KeyShare.{KeyShareEntry, KeyShareServerHello}
use embedded_tls.Extensions.{parse_vector}
use embedded_tls.Extensions.Total.{Total-parse_vector}
use embedded_tls.Extensions.ServerHello as ServerHelloExtensions
use embedded_tls.Extensions.ServerHello.{
  ServerHelloExtension, key_share, pre_shared_key, cookie, supported_versions,
}
use embedded_tls.Extensions.EncryptedExtensions as EncryptedExtensionsExtensions

pub record ServerHello : Type 0 where
  pub extensions : List ServerHelloExtension

-- `CipherSuite::parse`
pub read_cipher_suite : Read CipherSuite
read_cipher_suite = do n ← read_u16; ok_or invalid_data (of_code n)

Total-read_cipher_suite : Total 2 (λ _. Unit {0}) read_cipher_suite
unfolding read_cipher_suite
Total-read_cipher_suite = Total-then Total-read_u16 (λ n _. Total-any (Total-ok_or _ (of_code n)))

-- The first key share among the extensions.
abbrev first_key_share : List ServerHelloExtension → Option KeyShareEntry
first_key_share [] = none
first_key_share (key_share e ∷ es) = some e.share
first_key_share (_ ∷ es) = first_key_share es

unfoldable pub server_key_share : ServerHello → Option KeyShareEntry
server_key_share hello = first_key_share hello.extensions

-- any extension but a key share
abbrev pub IsOther : ServerHelloExtension → Type 0
IsOther (key_share _) = ⊥
IsOther _ = Unit

first_key_share_behind :
    (before behind : List ServerHelloExtension) (x : KeyShareServerHello)
    → All IsOther before
    → first_key_share (before ++ (key_share x ∷ behind)) ≡ some x.share
first_key_share_behind [] behind x h = refl
first_key_share_behind (key_share _ ∷ before) behind x h = absurd h.0
first_key_share_behind (pre_shared_key _ ∷ before) behind x h =
    first_key_share_behind before behind x h.1
first_key_share_behind (cookie _ ∷ before) behind x h = first_key_share_behind before behind x h.1
first_key_share_behind (supported_versions _ ∷ before) behind x h =
    first_key_share_behind before behind x h.1

pub server_key_share-first :
    (before behind : List ServerHelloExtension) (x : KeyShareServerHello)
    → All IsOther before
    → server_key_share (record { extensions = before ++ (key_share x ∷ behind) }) ≡ some x.share
unfolding server_key_share
server_key_share-first before behind x h = first_key_share_behind before behind x h

module _ ⦃h : Heapless⦄ where
  -- The version, the random, the session id and the cipher suite are read and dropped.
  pub parse_server_hello : Exec ParseBuffer TlsError ServerHello
  parse_server_hello = do
    version ← map_err (λ _. invalid_handshake) read_u16
    random ← lift (fill 32)
    session_id_length ← map_err (λ _. invalid_session_id_length) read_u8
    session_id ← map_err (λ _. invalid_session_id_length) (slice session_id_length)
    cipher_suite ← map_err (λ _. invalid_cipher_suite) read_cipher_suite
    compression ← lift read_u8
    extensions ← parse_vector ServerHelloExtensions.arms 4
    pure (record { extensions = extensions })

  pub Total-parse_server_hello : Total 2 (λ _. Unit {0}) parse_server_hello
  unfolding parse_server_hello
  Total-parse_server_hello = Total-then (Total-map_err _ Total-read_u16) (λ _ _.
      Total-then (Total-any (Total-map_err _ (Total-fill 32))) (λ _ _.
        Total-then (Total-any (Total-map_err _ Total-read_u8)) (λ n _.
          Total-then (Total-any (Total-map_err _ (Total-slice n))) (λ _ _.
            Total-then (Total-any (Total-map_err _ Total-read_cipher_suite)) (λ _ _.
              Total-then (Total-any (Total-map_err _ Total-read_u8)) (λ _ _.
                Total-then
                  (Total-any (
                    Total-parse_vector ServerHelloExtensions.arms 4
                      ServerHelloExtensions.arms-Total))
                  (λ xs _. Total-pure _ tt)))))))

  -- `EncryptedExtensions` keeps nothing.
  pub parse_encrypted_extensions : Exec ParseBuffer TlsError (Unit {0})
  parse_encrypted_extensions = do
    extensions ← parse_vector EncryptedExtensionsExtensions.arms 16
    pure tt

  pub Total-parse_encrypted_extensions : Total 2 (λ _. Unit {0}) parse_encrypted_extensions
  unfolding parse_encrypted_extensions
  Total-parse_encrypted_extensions =
      Total-then
        (Total-parse_vector EncryptedExtensionsExtensions.arms 16
          EncryptedExtensionsExtensions.arms-Total)
        (λ _ _. Total-pure tt tt)
