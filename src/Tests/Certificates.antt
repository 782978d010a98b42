-- ===== src/Tests/Certificates.antt =====
-- The theorems on chains of certificates and on the verifier that keeps one.
use embedded_tls.Prelude.{ℕ, ◌≡◌, ◌+◌, refl, Option, true, none, some, List, [], ◌∷◌, arith}
use embedded_tls.Exec.{Result, ok, err, ◌>>=◌, gets, pure, on_right}
use embedded_tls.Error.{TlsError}
use embedded_tls.Parse.{new, is_empty, read_while}
use embedded_tls.Heapless.{bounded}
use embedded_tls.Handshake.Certificate.{
  Certificate, CertificateEntry, x509, raw_public_key, parse_entries,
}
use embedded_tls.Handshake.Certificate.Owned.{
  OwnedCertificate, to_owned, owned, copied, from_owned, borrowed,
}
use embedded_tls.Handshake.CertificateVerify.{CertificateVerify}
use embedded_tls.Codec.SignatureScheme.{ed25519}
use embedded_tls.Pki.Hostname.{
  CertificateNames, tls_hostname_match, any_match, match_common_name, tls_hostname_match_impl,
  match_scanned, scan_name, scan_host, same_name, same_lowercase, is_name_byte, to_ascii_lowercase,
}
use embedded_tls.Pki.Chain.{walk_chain, walk, next, check_now}
use embedded_tls.Pki.Chain.Linked.{Linked, checks, walk_chain_lem}
use embedded_tls.Pki.CertVerifier.{
  CertVerifier, verify_certificate, keep_verified, verify_signature,
}
use embedded_tls.Pki.CertVerifier.Verified.{
  Kept, verify_certificate-Verified, verify_signature-kept,
}
use embedded_tls.Tests.Keys.{counting}

-- a clock that counts its calls
abbrev clock : ℕ → Option ℕ × ℕ
clock s = (some s, s + 1)

-- a check that any encoded certificate passes, with its encoding as its name
abbrev check : CertificateEntry → CertificateEntry → Option ℕ → Result TlsError CertificateNames
check p (x509 q) time = ok (record { common_name = some q; san_dns_names = [] })
check p (raw_public_key q) time = err TlsError.invalid_certificate

-- the name `a` of the server, and an intermediate certificate
abbrev entries : List CertificateEntry
entries = x509 (97 ∷ []) ∷ x509 (98 ∷ []) ∷ []

abbrev authority : CertificateEntry
authority = x509 (99 ∷ [])

abbrev cert : Certificate
cert = record { raw_entries = []; request_context = []; entries = entries }

abbrev kept : OwnedCertificate
kept = record { request_context = []; entries_data = [] }

abbrev fresh : CertVerifier counting.State
fresh = record {
  ca = authority;
  host = some (97 ∷ []);
  certificate_transcript = none;
  certificate = none;
}

abbrev verified : CertVerifier counting.State
verified = record fresh { certificate_transcript = some counting.new; certificate = some kept }

walk_chain_lem_example :
    walk_chain clock check authority entries 0 ≡ checks clock check authority entries 0
walk_chain_lem_example = walk_chain_lem clock check authority entries 0

abbrev server_name : CertificateNames
server_name = record { common_name = some (97 ∷ []); san_dns_names = [] }

matches : tls_hostname_match server_name (some (97 ∷ [])) ≡ true
unfolding tls_hostname_match any_match match_common_name tls_hostname_match_impl match_scanned
    scan_name scan_host same_name same_lowercase is_name_byte to_ascii_lowercase
matches = refl

verifies : verify_certificate counting ℕ clock check 100 [] cert (fresh, 0) ≡ (ok tt, (verified, 2))
unfolding verify_certificate keep_verified walk_chain walk next check_now to_owned owned copied gets
    pure on_right ◌>>=◌
verifies = rw matches

verify_certificate-Verified_example :
    (names : CertificateNames) × Linked clock check authority entries names
    × Kept counting ℕ clock check 100 [] cert names (some (97 ∷ [])) verified
verify_certificate-Verified_example =
    verify_certificate-Verified counting ℕ clock check 100 [] cert (fresh, 0) (verified, 2) verifies

-- a signature that is the text
abbrev check_signature : List ℕ → Certificate → CertificateVerify → Result TlsError (Unit {0})
check_signature message certificate verify = ok tt

abbrev empty : Certificate
empty = record { raw_entries = []; request_context = []; entries = [] }

borrows : from_owned kept ≡ ok empty
unfolding from_owned borrowed parse_entries read_while is_empty new
borrows = refl

verify_signature-kept_example :
    verify_signature counting ℕ check_signature
      (record { signature_scheme = ed25519; signature = [] })
      (verified, 2)
    ≡ (ok tt, (record verified { certificate_transcript = none }, 2))
verify_signature-kept_example =
    verify_signature-kept counting ℕ check_signature verified 2 [] kept empty
      (record { signature_scheme = ed25519; signature = [] }) (omega arith) refl refl borrows
