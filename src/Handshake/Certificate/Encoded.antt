-- ===== src/Handshake/Certificate/Encoded.antt =====
-- src/handshake/certificate.rs: the bytes of a certificate message that the client sends.
use mathlib.Core.List.{flat_map}
use embedded_tls.Prelude.{ℕ, ◌%◌, List, [], ◌∷◌, ◌++◌, length}
use embedded_tls.Prelude.Words.{be16, be24}
use embedded_tls.Exec.{for_each}
use embedded_tls.Buffer.Encodes.{
  Encodes, Encodes-bind, Encodes-push_u16, Encodes-extend_from_slice, Encodes-pure,
}
use embedded_tls.Buffer.Lengths.{Encodes-with_u8_length, Encodes-with_u24_length}
use embedded_tls.Handshake.Certificate.{
  Certificate, CertificateEntry, x509, raw_public_key, encode_entry, encode_certificate,
}

-- what is behind the length of an entry, with no extensions
abbrev pub entry_bytes : CertificateEntry → List ℕ
entry_bytes (x509 cert) = (be24 (length cert) ++ cert) ++ be16 0
entry_bytes (raw_public_key _) = []

-- No entry is a raw public key.
abbrev pub AllX509 : List CertificateEntry → Type 0
AllX509 [] = Unit
AllX509 (x509 _ ∷ entries) = AllX509 entries
AllX509 (raw_public_key _ ∷ _) = ⊥

abbrev pub certificate_bytes : Certificate → List ℕ
certificate_bytes m =
    let entries = flat_map entry_bytes m.entries in
    ((length m.request_context % 256) ∷ m.request_context) ++ (be24 (length entries) ++ entries)

Encodes-entries :
    (entries : List CertificateEntry)
    → AllX509 entries
    → Encodes (for_each encode_entry entries) (flat_map entry_bytes entries)
unfolding for_each flat_map encode_entry
Encodes-entries [] h = Encodes-pure
Encodes-entries (x509 cert ∷ entries) h =
    Encodes-bind
      (Encodes-bind (Encodes-with_u24_length (Encodes-extend_from_slice cert)) (Encodes-push_u16 0))
      (Encodes-entries entries h)
Encodes-entries (raw_public_key _ ∷ _) h = absurd h

pub Encodes-encode_certificate :
    (m : Certificate) → AllX509 m.entries → Encodes (encode_certificate m) (certificate_bytes m)
unfolding encode_certificate
Encodes-encode_certificate m h =
    Encodes-bind (Encodes-with_u8_length (Encodes-extend_from_slice m.request_context))
      (Encodes-with_u24_length (Encodes-entries m.entries h))
