-- ===== src/Pki/CertVerifier/Verified.antt =====
-- src/pki.rs: what a `CertVerifier` has checked of the certificate that it keeps.
use embedded_tls.Prelude.{
  ℕ, ◌≡◌, ◌≤◌, refl, sym, ap, subst, ◌∙◌, Bool, true, false, Option, some, none, List, [], ◌++◌,
  arith, replicate, if◌then◌else◌,
}
use embedded_tls.Exec.{
  Result, Exec, ok, outcome, pure, raise, gets, unwrap, on_right, bind-returned, then_ok, ◌>>=◌,
}
use embedded_tls.Error.{TlsError, encode_error}
use embedded_tls.Heapless.{Heapless}
use embedded_tls.Digest.{Digest}
use embedded_tls.KeySchedule.Secrets.{require}
use embedded_tls.KeySchedule.Secrets.Expand.{require-some}
use embedded_tls.Handshake.Certificate.{Certificate, CertificateEntry}
use embedded_tls.Handshake.Certificate.Owned.{OwnedCertificate, to_owned, from_owned}
use embedded_tls.Handshake.CertificateVerify.{CertificateVerify}
use embedded_tls.Pki.Hostname.{CertificateNames, tls_hostname_match}
use embedded_tls.Pki.Chain.{walk_chain}
use embedded_tls.Pki.Chain.Linked.{Linked, checks-Linked, walk_chain_lem}
use embedded_tls.Pki.CertVerifier.{
  CertVerifier, ctx_str, keep_verified, verify_certificate, signed_message, verify_with,
  take_transcript, verify_signature,
}

module _ ⦃h : Heapless⦄ (d : Digest) (S : Type 0) (now : S → Option ℕ × S)
    (check : CertificateEntry → CertificateEntry → Option ℕ → Result TlsError CertificateNames)
    (cert_size : ℕ) where
  -- What is kept of a certificate whose names are known.
  abbrev pub Kept :
      d.State → Certificate → CertificateNames → Option (List ℕ) → CertVerifier d.State → Type 0
  Kept transcript cert names host v =
      (tls_hostname_match names host ≡ true)
      × (v.certificate_transcript ≡ some transcript)
      × ((owned : OwnedCertificate) × (to_owned cert_size cert ≡ ok owned)
          × (v.certificate ≡ some owned))

  matched :
      (b : Bool) (s s' : CertVerifier d.State × S)
      → (if b then pure tt else raise TlsError.invalid_certificate) s ≡ (ok tt, s')
      → (b ≡ true) × (s ≡ s')
  unfolding pure raise
  matched true s s' p = (refl, ap (λ o. o.1) p)
  matched false s s' p = cc

  keep_verified-Kept :
      (transcript : d.State) (cert : Certificate) (names : CertificateNames)
      (s s' : CertVerifier d.State × S)
      → keep_verified d S now check cert_size transcript cert names s ≡ (ok tt, s')
      → Kept transcript cert names s.0.host s'.0
  unfolding keep_verified gets ◌>>=◌
  keep_verified-Kept transcript cert names s s' p =
      let test = tls_hostname_match names s.0.host in
      let store : OwnedCertificate → Exec (CertVerifier d.State × S) TlsError (Unit {0}) = λ kept t.
        (
          ok tt,
          (record t.0 { certificate = some kept; certificate_transcript = some transcript }, t.1),
        ) in
      let (_, s1, p1, q1) =
        bind-returned (if test then pure tt else raise TlsError.invalid_certificate)
          (λ _. outcome (to_owned cert_size cert) >>= store) p in
      let (owned, s2, p2, q2) = bind-returned (outcome (to_owned cert_size cert)) store q1 in
      (
        (matched test s s1 p1).0,
        sym (ap (λ o. o.1.0.certificate_transcript) q2),
        (owned, ap (λ o. o.0) p2, sym (ap (λ o. o.1.0.certificate) q2)),
      )

  -- Where `CertVerifier::verify_certificate` succeeds, the last certificate of the message was
  -- checked with the key of the authority and each other one with that of the certificate
  -- behind it, the host name of the verifier is among the names that the check of the first
  -- gave, or without certificates among none, and the transcript and a copy of the certificate
  -- are kept.
  pub verify_certificate-Verified :
      (transcript : d.State) (cert : Certificate) (s s' : CertVerifier d.State × S)
      → verify_certificate d S now check cert_size transcript cert s ≡ (ok tt, s')
      → (names : CertificateNames) × Linked now check s.0.ca cert.entries names
        × Kept transcript cert names s.0.host s'.0
  unfolding verify_certificate gets on_right ◌>>=◌
  verify_certificate-Verified transcript cert s s' p =
      let run = walk_chain now check s.0.ca cert.entries in
      let (names, s1, p1, q1) =
        bind-returned (on_right run) (keep_verified d S now check cert_size transcript cert) p in
      let walked : run s.1 ≡ (ok names, s1.1) = ap (λ o. (o.0, o.1.1)) p1 in
      let same : s.0 ≡ s1.0 = ap (λ o. o.1.0) p1 in
      (
        names,
        checks-Linked now check s.0.ca cert.entries s.1 s1.1
            (sym (walk_chain_lem now check s.0.ca cert.entries s.1) ∙ walked),
        subst (λ v. Kept transcript cert names v.host s'.0) (sym same)
            (keep_verified-Kept transcript cert names s1 s' q1),
      )

module _ ⦃h : Heapless⦄ (d : Digest) (S : Type 0)
    (check_signature : List ℕ → Certificate → CertificateVerify → Result TlsError (Unit {0})) where
  signed_message_lem :
      (transcript : d.State) (s : CertVerifier d.State × S)
      → d.output_size ≤ 48
      → signed_message d S check_signature transcript s
        ≡ (ok ((replicate 64 32 ++ ctx_str) ++ d.finalize transcript), s)
  unfolding signed_message ctx_str
  signed_message_lem transcript s le =
      then_ok (require encode_error (h.resize ℕ 146 [] 64 32)) _
        (require-some encode_error _ (h.resize_ok ℕ 146 [] 64 32 (omega arith)))
        (then_ok (require encode_error (h.extend ℕ 146 (replicate 64 32) ctx_str)) _
          (require-some encode_error _ (h.extend_ok ℕ 146 (replicate 64 32) ctx_str (omega arith)))
          (require-some encode_error _ (
            h.extend_ok ℕ 146 (replicate 64 32 ++ ctx_str) (d.finalize transcript)
              (let e = d.length-finalize transcript in omega arith))))

  -- With a transcript and a certificate that were kept, and a hash of at most 48 bytes,
  -- `CertVerifier::verify_signature` gives what the check of the signature gives on 64 spaces,
  -- the context of a server and the hash of the transcript, and the transcript is no longer
  -- kept.
  pub verify_signature-kept :
      (v : CertVerifier d.State) (s : S) (transcript : d.State) (owned : OwnedCertificate)
      (cert : Certificate) (verify : CertificateVerify)
      → d.output_size ≤ 48
      → v.certificate_transcript ≡ some transcript
      → v.certificate ≡ some owned
      → from_owned owned ≡ ok cert
      → verify_signature d S check_signature verify (v, s) ≡ (
        check_signature ((replicate 64 32 ++ ctx_str) ++ d.finalize transcript) cert verify,
        (record v { certificate_transcript = none }, s),
      )
  unfolding verify_signature verify_with take_transcript unwrap gets
  verify_signature-kept v s transcript owned cert verify le t o c =
      let left : CertVerifier d.State × S = (record v { certificate_transcript = none }, s) in
      let rest : d.State → Exec (CertVerifier d.State × S) TlsError (Unit {0}) =
        λ hash. verify_with d S check_signature hash verify in
      then_ok (take_transcript d S check_signature) (λ found. unwrap found >>= rest)
        (ap (λ found. (ok found, left)) t)
        (then_ok (unwrap (some transcript)) rest refl (
          then_ok (signed_message d S check_signature transcript) _
            (signed_message_lem transcript left le)
            (then_ok (gets (λ s. s.0.certificate)) _ refl (
              then_ok (unwrap v.certificate) _ (ap (λ kept. unwrap kept left) o)
                (then_ok (outcome (from_owned owned)) _ (ap (λ r. (r, left)) c) refl)))))
