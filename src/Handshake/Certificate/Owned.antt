-- ===== src/Handshake/Certificate/Owned.antt =====
-- src/handshake/certificate.rs: `Certificate<N>`, the copy of a certificate that a verifier keeps.
use embedded_tls.Prelude.{ℕ, none, some, List, []}
use embedded_tls.Exec.{Result, ok, err, panic, stuck}
use embedded_tls.Error.{TlsError, out_of_memory}
use embedded_tls.Heapless.{Heapless}
use embedded_tls.Parse.{new}
use embedded_tls.Handshake.Certificate.{Certificate, CertificateEntry, parse_entries}

pub record OwnedCertificate : Type 0 where
  pub request_context : List ℕ
  pub entries_data : List ℕ

module _ ⦃h : Heapless⦄ where
  unfoldable pub copied : ℕ → List ℕ → Result TlsError (List ℕ)
  copied n xs = elim (h.extend ℕ n [] xs) [ none ↦ err out_of_memory | some ys ↦ ok ys ]

  unfoldable pub owned :
      Result TlsError (List ℕ) → Result TlsError (List ℕ) → Result TlsError OwnedCertificate
  owned (ok context) (ok entries) =
      ok (record { request_context = context; entries_data = entries })
  owned (ok context) (err e) = err e
  owned (ok context) panic = panic
  owned (ok context) stuck = stuck
  owned (err e) _ = err e
  owned panic _ = panic
  owned stuck _ = stuck

  -- `Certificate::<N>::try_from`
  unfoldable pub to_owned : ℕ → Certificate → Result TlsError OwnedCertificate
  to_owned cert_size c = owned (copied 256 c.request_context) (copied cert_size c.raw_entries)

  unfoldable pub borrowed :
      OwnedCertificate → Result TlsError (List CertificateEntry) → Result TlsError Certificate
  borrowed c (ok entries) = ok (record {
    raw_entries = c.entries_data;
    request_context = c.request_context;
    entries = entries;
  })
  borrowed c (err e) = err e
  borrowed c panic = panic
  borrowed c stuck = stuck

  -- `CertificateRef::try_from` of an owned certificate
  unfoldable pub from_owned : OwnedCertificate → Result TlsError Certificate
  from_owned c = borrowed c (parse_entries 16 (new c.entries_data)).0
