-- ===== src/Pki/Hostname/Names.antt =====
-- All the names of a certificate: `tls_hostname_match` of src/pki.rs.
use embedded_tls.Prelude.{
  ℕ, ◌≡◌, refl, subst, ◌↔◌, Bool, inl, inr, ◌⊎◌, true, false, Option, none, some, List, [], ◌∷◌,
  if◌then◌else◌,
}
use embedded_tls.Pki.Hostname.{
  CertificateNames, tls_hostname_match_impl, any_match, match_common_name, tls_hostname_match,
}
use embedded_tls.Pki.Hostname.Sound.{Matches, false_not_true}
use embedded_tls.Pki.Hostname.Complete.{tls_hostname_match_impl_iff}

-- One of the names belongs to the host.
abbrev pub AnyMatches : List (List ℕ) → List ℕ → Type 0
AnyMatches [] host = ⊥
AnyMatches (san ∷ sans) host = Matches san host ⊎ AnyMatches sans host

abbrev pub CommonNameMatches : Option (List ℕ) → List ℕ → Type 0
CommonNameMatches none host = ⊥
CommonNameMatches (some cn) host = Matches cn host

or_else_iff :
    {P Q : Type 0} (b c : Bool)
    → (b ≡ true) ↔ P
    → (c ≡ true) ↔ Q
    → ((if b then true else c) ≡ true) ↔ (P ⊎ Q)
or_else_iff true c f g = (λ _. inl (f.0 refl), λ _. refl)
or_else_iff false c f g =
    (λ q. inr (g.0 q), λ m. elim m [ inl a ↦ absurd (false_not_true (f.1 a)) | inr b ↦ g.1 b ])

any_match_iff :
    (sans : List (List ℕ)) (host : List ℕ) → (any_match sans host ≡ true) ↔ AnyMatches sans host
unfolding any_match
any_match_iff [] host = (λ p. cc, λ m. absurd m)
any_match_iff (san ∷ sans) host =
    or_else_iff (tls_hostname_match_impl san host) _ (tls_hostname_match_impl_iff san host)
      (any_match_iff sans host)

common_name_iff :
    (cn : Option (List ℕ)) (host : List ℕ)
    → (match_common_name cn host ≡ true) ↔ CommonNameMatches cn host
unfolding match_common_name
common_name_iff none host = (λ p. cc, λ m. absurd m)
common_name_iff (some cn) host = tls_hostname_match_impl_iff cn host

-- a certificate that does not have names of both kinds
abbrev pub OfOneKind : CertificateNames → Type 0
OfOneKind names = (names.san_dns_names ≡ []) ⊎ (names.common_name ≡ none)

-- A certificate that does not have names of both kinds is taken for a host exactly where one
-- of its alternative names belongs to the host, or it has no alternative names and its common
-- name belongs to the host.
pub tls_hostname_match_iff :
    (names : CertificateNames) (host : List ℕ)
    → OfOneKind names
    → (tls_hostname_match names (some host) ≡ true) ↔ (
        AnyMatches names.san_dns_names host
        ⊎ ((names.san_dns_names ≡ []) × CommonNameMatches names.common_name host))
unfolding tls_hostname_match
tls_hostname_match_iff names host kind =
    or_else_iff (any_match names.san_dns_names host) _ (any_match_iff names.san_dns_names host)
      (fallback kind)
  where
    nothing : names.common_name ≡ none → CommonNameMatches names.common_name host → ⊥
    nothing e m = subst (λ o. CommonNameMatches o host) e m

    fallback :
        OfOneKind names
        → (match_common_name names.common_name host ≡ true)
          ↔ ((names.san_dns_names ≡ []) × CommonNameMatches names.common_name host)
    fallback (inl e) =
        let both = common_name_iff names.common_name host in (λ p. (e, both.0 p), λ m. both.1 m.1)
    fallback (inr e) = (
      λ p. absurd (nothing e ((common_name_iff names.common_name host).0 p)),
      λ m. absurd (nothing e m.1),
    )
