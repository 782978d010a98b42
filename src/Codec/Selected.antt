-- ===== src/Codec/Selected.antt =====
-- What the server selects: `SupportedVersionsServerHello` of
-- src/extensions/extension_data/supported_versions.rs and `PreSharedKeyServerHello` of
-- src/extensions/extension_data/pre_shared_key.rs.
use embedded_tls.Prelude.{ℕ, ◌^◌, ◌<◌}
use embedded_tls.Prelude.Words.{be16}
use embedded_tls.Exec.{pure, map_err, ◌>>=◌}
use embedded_tls.Error.{encode_error}
use embedded_tls.Buffer.{Write, push_u16}
use embedded_tls.Buffer.Encodes.{Encodes, Encodes-map_err, Encodes-push_u16}
use embedded_tls.Parse.{Read, read_u16}
use embedded_tls.Parse.Total.{Total, Total-then, Total-pure, Total-read_u16}
use embedded_tls.Codec.Vectors.Bounds.{Total-read_version}
use embedded_tls.Parse.Parses.{Parses, Parses-end, Parses-pure, Parses-read_u16}
use embedded_tls.Codec.Vectors.{read_version, write_version}
use embedded_tls.Codec.Vectors.RoundTrip.{Encodes-write_version, Parses-read_version}

pub record SupportedVersionsServerHello : Type 0 where
  pub selected_version : ℕ

pub read_selected_version : Read SupportedVersionsServerHello
read_selected_version = do v ← read_version; pure (record { selected_version = v })

pub write_selected_version : SupportedVersionsServerHello → Write (Unit {0})
write_selected_version x = write_version x.selected_version

pub record PreSharedKeyServerHello : Type 0 where
  pub selected_identity : ℕ

pub read_selected_identity : Read PreSharedKeyServerHello
read_selected_identity = do n ← read_u16; pure (record { selected_identity = n })

pub write_selected_identity : PreSharedKeyServerHello → Write (Unit {0})
write_selected_identity x = map_err (λ _. encode_error) (push_u16 x.selected_identity)

pub Total-read_selected_version : Total 2 (λ _. Unit {0}) read_selected_version
unfolding read_selected_version
Total-read_selected_version = Total-then Total-read_version (λ v _. Total-pure _ tt)

pub Total-read_selected_identity : Total 2 (λ _. Unit {0}) read_selected_identity
unfolding read_selected_identity
Total-read_selected_identity = Total-then Total-read_u16 (λ n _. Total-pure _ tt)

pub selected_version-round_trip :
    (x : SupportedVersionsServerHello)
    → x.selected_version < 2 ^ 16
    → Encodes (write_selected_version x) (be16 x.selected_version)
      × Parses read_selected_version x (be16 x.selected_version)
unfolding write_selected_version read_selected_version
selected_version-round_trip x h = (
  Encodes-write_version x.selected_version,
  Parses-end _ (Parses-read_version x.selected_version h) (Parses-pure x),
)

-- The identity that a server selected, below 2^16, is encoded as its two bytes and read back
-- from them.
pub selected_identity-round_trip :
    (x : PreSharedKeyServerHello)
    → x.selected_identity < 2 ^ 16
    → Encodes (write_selected_identity x) (be16 x.selected_identity)
      × Parses read_selected_identity x (be16 x.selected_identity)
unfolding write_selected_identity read_selected_identity
selected_identity-round_trip x h = (
  Encodes-map_err _ (Encodes-push_u16 x.selected_identity),
  Parses-end _ (Parses-read_u16 x.selected_identity h) (Parses-pure x),
)
