-- ===== src/Config/Fresh.antt =====
-- What `TlsConfig::new` of src/config.rs makes.
use embedded_tls.Prelude.{
  ◌<◌, ◌≤◌, ◌≡◌, refl, Bool, true, false, [], ◌∷◌, ◌++◌, arith, length, length-append,
  if◌then◌else◌,
}
use embedded_tls.Exec.{ok, pure, gets, unwrap, then_ok, for_each, ◌>>=◌, ◌>>◌}
use embedded_tls.Heapless.{Heapless}
use embedded_tls.Codec.NamedGroup.{NamedGroup, secp256r1}
use embedded_tls.Codec.SignatureScheme.{
  SignatureScheme, ecdsa_secp256r1_sha256, ecdsa_secp384r1_sha384, ed25519,
}
use embedded_tls.Handshake.ClientHello.{TlsConfig}
use embedded_tls.Config.{
  max_schemes, max_groups, blank, set_schemes, set_groups, push_scheme, push_group,
  enable_rsa_signatures, rsa_schemes, new,
}

module _ ⦃h : Heapless⦄ where
  push_scheme_ok :
      (x : SignatureScheme) (config : TlsConfig)
      → length config.signature_schemes < max_schemes
      → push_scheme x config
        ≡ (ok tt, record config { signature_schemes = config.signature_schemes ++ (x ∷ []) })
  unfolding push_scheme set_schemes gets unwrap ◌>>=◌
  push_scheme_ok x config room =
      rw (h.push_ok SignatureScheme max_schemes config.signature_schemes x room) refl

  push_group_ok :
      (x : NamedGroup) (config : TlsConfig)
      → config.named_groups ≡ []
      → push_group x config ≡ (ok tt, record config { named_groups = x ∷ [] })
  unfolding push_group set_groups gets unwrap ◌>>=◌
  push_group_ok x config e = rw (e, h.push_ok NamedGroup max_groups [] x (omega arith)) refl

  last_pushes :
      (config : TlsConfig)
      → config.named_groups ≡ []
      → length config.signature_schemes ≤ 22
      → (push_scheme ecdsa_secp256r1_sha256
            >> (push_scheme ecdsa_secp384r1_sha384
                >> (push_scheme ed25519 >> push_group secp256r1)))
          config
        ≡ (
          ok tt,
          record config {
            signature_schemes =
                ((config.signature_schemes ++ (ecdsa_secp256r1_sha256 ∷ []))
                  ++ (ecdsa_secp384r1_sha384 ∷ []))
                ++ (ed25519 ∷ []);
            named_groups = secp256r1 ∷ [];
          },
        )
  last_pushes config e room =
      let a = length-append config.signature_schemes (ecdsa_secp256r1_sha256 ∷ []) in
      let b =
        length-append (config.signature_schemes ++ (ecdsa_secp256r1_sha256 ∷ []))
          (ecdsa_secp384r1_sha384 ∷ []) in
      then_ok _ _ (push_scheme_ok _ config (omega arith)) (
        then_ok _ _ (push_scheme_ok _ _ (omega (arith, a)))
          (then_ok _ _ (push_scheme_ok _ _ (omega (arith, a, b))) (push_group_ok _ _ e)))

  -- `TlsConfig::new` does not panic: it gives the three signature schemes of elliptic curves,
  -- behind the six of RSA with the feature `alloc`, the group secp256r1, and nothing else.
  pub new-ok :
      (alloc : Bool)
      → new alloc blank ≡ (
        ok tt,
        record blank {
          signature_schemes =
              (if alloc then rsa_schemes else [])
              ++ (ecdsa_secp256r1_sha256 ∷ ecdsa_secp384r1_sha384 ∷ ed25519 ∷ []);
          named_groups = secp256r1 ∷ [];
        },
      )
  unfolding new blank enable_rsa_signatures for_each pure
  new-ok true =
      then_ok _ _
        (then_ok _ _ (push_scheme_ok _ _ (omega arith)) (
          then_ok _ _ (push_scheme_ok _ _ (omega arith)) (
            then_ok _ _ (push_scheme_ok _ _ (omega arith)) (
              then_ok _ _ (push_scheme_ok _ _ (omega arith)) (
                then_ok _ _ (push_scheme_ok _ _ (omega arith))
                  (then_ok _ _ (push_scheme_ok _ _ (omega arith)) refl))))))
        (last_pushes _ refl (omega arith))
  new-ok false = then_ok _ _ refl (last_pushes blank refl (omega arith))
