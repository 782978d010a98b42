-- ===== src/Tests/Configuration.antt =====
-- The theorems on the configuration and on the names of a certificate.
use embedded_tls.Prelude.{ℕ, ◌≡◌, ◌↔◌, ◌⊎◌, inr, refl, none, true, false, List, [], ◌∷◌, some}
use embedded_tls.Exec.{ok, panic}
use embedded_tls.Heapless.{bounded}
use embedded_tls.Config.{blank}
use embedded_tls.Config.Built.{Builder, rsa, psk, Fits, after, fresh, configured, configured-Built}
use embedded_tls.Pki.Hostname.{CertificateNames, tls_hostname_match_impl, tls_hostname_match}
use embedded_tls.Pki.Hostname.Sound.{Matches}
use embedded_tls.Pki.Hostname.Complete.{tls_hostname_match_impl_iff}
use embedded_tls.Pki.Hostname.Names.{AnyMatches, CommonNameMatches, tls_hostname_match_iff}

-- four times the schemes of RSA, which are more than there is room for, and a key
abbrev calls : List Builder
calls = psk (1 ∷ []) ((2 ∷ []) ∷ []) ∷ rsa ∷ rsa ∷ rsa ∷ rsa ∷ []

configured-Built_example :
    (Fits 3 calls × (configured false calls blank ≡ (ok tt, after calls (fresh false))))
    ⊎ ((¬ Fits 3 calls) × ((configured false calls blank).0 ≡ panic))
configured-Built_example = configured-Built false calls

-- `*.b.c` and `A.b.C`
abbrev wildcard : List ℕ
wildcard = 42 ∷ 46 ∷ 98 ∷ 46 ∷ 99 ∷ []

abbrev host : List ℕ
host = 65 ∷ 46 ∷ 98 ∷ 46 ∷ 67 ∷ []

tls_hostname_match_impl_iff_example :
    (tls_hostname_match_impl wildcard host ≡ true) ↔ Matches wildcard host
tls_hostname_match_impl_iff_example = tls_hostname_match_impl_iff wildcard host

-- a certificate with two alternative names, of which one is that of the host
abbrev names : CertificateNames
names = record { common_name = none; san_dns_names = (98 ∷ []) ∷ wildcard ∷ [] }

tls_hostname_match_iff_example : (tls_hostname_match names (some host) ≡ true) ↔ (
    AnyMatches ((98 ∷ []) ∷ wildcard ∷ []) host
    ⊎ ((((98 ∷ []) ∷ wildcard ∷ []) ≡ []) × CommonNameMatches none host))
tls_hostname_match_iff_example = tls_hostname_match_iff names host (inr refl)
