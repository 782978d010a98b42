-- ===== src/Config.antt =====
-- src/config.rs: how a `TlsConfig` is built. The record stands in Handshake/ClientHello. A builder that takes
-- `self` and gives it back is an action on the configuration; `unwrap!` of a vector that is full panics.
pub mod Fresh
pub mod Built
use embedded_tls.Prelude.{ℕ, Bool, true, false, Option, none, some, List, [], ◌∷◌, if◌then◌else◌}
use embedded_tls.Exec.{ok, Exec, pure, gets, unwrap, for_each, ◌>>=◌, ◌>>◌}
use embedded_tls.Error.{TlsError}
use embedded_tls.Heapless.{Heapless}
use embedded_tls.Codec.NamedGroup.{NamedGroup, secp256r1}
use embedded_tls.Codec.SignatureScheme.{
  SignatureScheme, ecdsa_secp256r1_sha256, ecdsa_secp384r1_sha384, ed25519, rsa_pkcs1_sha256,
  rsa_pkcs1_sha384, rsa_pkcs1_sha512, rsa_pss_rsae_sha256, rsa_pss_rsae_sha384, rsa_pss_rsae_sha512,
}
use embedded_tls.Codec.Vectors.{MaxFragmentLength}
use embedded_tls.Handshake.ClientHello.{TlsConfig}

abbrev pub Building : Type 0
Building = Exec TlsConfig TlsError (Unit {0})

-- the capacities of the vectors
abbrev pub max_schemes : ℕ
max_schemes = 25

abbrev pub max_groups : ℕ
max_groups = 13

abbrev pub max_identities : ℕ
max_identities = 4

pub blank : TlsConfig
blank = record {
  server_name = none;
  alpn_protocols = none;
  psk = none;
  signature_schemes = [];
  named_groups = [];
  max_fragment_length = none;
}

pub set_schemes : List SignatureScheme → Building
set_schemes schemes config = (ok tt, record config { signature_schemes = schemes })

pub set_groups : List NamedGroup → Building
set_groups groups config = (ok tt, record config { named_groups = groups })

pub set_psk : List ℕ → List (List ℕ) → Building
set_psk psk identities config = (ok tt, record config { psk = some (psk, identities) })

abbrev pub rsa_schemes : List SignatureScheme
rsa_schemes =
    rsa_pkcs1_sha256 ∷ rsa_pkcs1_sha384 ∷ rsa_pkcs1_sha512 ∷ rsa_pss_rsae_sha256
    ∷ rsa_pss_rsae_sha384 ∷ rsa_pss_rsae_sha512 ∷ []

module _ ⦃h : Heapless⦄ where
  -- `unwrap!(config.signature_schemes.push(scheme).ok())`
  pub push_scheme : SignatureScheme → Building
  push_scheme scheme = do
    schemes ← gets (λ config. config.signature_schemes)
    pushed ← unwrap (h.push SignatureScheme max_schemes schemes scheme)
    set_schemes pushed

  pub push_group : NamedGroup → Building
  push_group group = do
    groups ← gets (λ config. config.named_groups)
    pushed ← unwrap (h.push NamedGroup max_groups groups group)
    set_groups pushed

  pub enable_rsa_signatures : Building
  enable_rsa_signatures = for_each push_scheme rsa_schemes

  -- `TlsConfig::new`, on the configuration with nothing in it; the flag is the feature `alloc`
  pub new : Bool → Building
  new alloc = do
    if alloc then enable_rsa_signatures else pure tt
    push_scheme ecdsa_secp256r1_sha256
    push_scheme ecdsa_secp384r1_sha384
    push_scheme ed25519
    push_group secp256r1

  pub with_server_name : List ℕ → Building
  with_server_name server_name config = (ok tt, record config { server_name = some server_name })

  pub with_alpn : List (List ℕ) → Building
  with_alpn protocols config = (ok tt, record config { alpn_protocols = some protocols })

  pub with_max_fragment_length : MaxFragmentLength → Building
  with_max_fragment_length n config = (ok tt, record config { max_fragment_length = some n })

  pub reset_max_fragment_length : Building
  reset_max_fragment_length config = (ok tt, record config { max_fragment_length = none })

  pub with_psk : List ℕ → List (List ℕ) → Building
  with_psk psk identities = unwrap (h.extend (List ℕ) max_identities [] identities) >>= set_psk psk
