-- ===== src/Handshake/CertificateVerify.antt =====
-- src/handshake/certificate_verify.rs: `CertificateVerify` and, as it is read, `CertificateVerifyRef`.
use embedded_tls.Prelude.{ℕ, ◌^◌, ◌<◌, List, ◌++◌, length}
use embedded_tls.Prelude.Words.{be16}
use embedded_tls.Exec.{Exec, pure, map_err, ◌>>=◌, ◌>>◌}
use embedded_tls.Error.{TlsError, invalid_signature, invalid_signature_scheme}
use embedded_tls.Buffer.{Write, push_u16, extend_from_slice, with_u16_length}
use embedded_tls.Buffer.Encodes.{Encodes, Encodes-bind, Encodes-push_u16, Encodes-extend_from_slice}
use embedded_tls.Buffer.Lengths.{Encodes-with_u16_length}
use embedded_tls.Parse.{ParseBuffer, new, read_u16, slice}
use embedded_tls.Parse.Total.{
  Total, Total-then, Total-any, Total-map_err, Total-pure, Total-read_u16, Total-slice,
}
use embedded_tls.Parse.Parses.{
  Parses, Parses-bind, Parses-end, Parses-map_err, Parses-pure, Parses-read_u16, Parses-slice,
}
use embedded_tls.Codec.SignatureScheme
use embedded_tls.Codec.SignatureScheme.{SignatureScheme}
use embedded_tls.Codec.Vectors.{read_scheme}
use embedded_tls.Codec.Vectors.RoundTrip.{scheme_bytes, Parses-read_scheme}
use embedded_tls.Codec.Vectors.Bounds.{Total-read_scheme}

pub record CertificateVerify : Type 0 where
  pub signature_scheme : SignatureScheme
  pub signature : List ℕ

pub parse : Exec ParseBuffer TlsError CertificateVerify
parse = do
  scheme ← map_err (λ _. invalid_signature_scheme) read_scheme
  len ← map_err (λ _. invalid_signature) read_u16
  signature ← map_err (λ _. invalid_signature) (slice len)
  pure (record { signature_scheme = scheme; signature = signature.buffer })

pub encode : CertificateVerify → Write (Unit {0})
encode v =
    push_u16 (SignatureScheme.as_u16 v.signature_scheme)
    >> with_u16_length (extend_from_slice v.signature)

abbrev pub bytes : CertificateVerify → List ℕ
bytes v = scheme_bytes v.signature_scheme ++ (be16 (length v.signature) ++ v.signature)

-- The parser of CertificateVerify returns on any input: it does not panic, its cursor stays
-- inside the bytes, and a success has read two bytes at least.
pub parse_certificate_verify-Total : Total 2 (λ _. Unit {0}) parse
unfolding parse
parse_certificate_verify-Total = Total-then (Total-map_err _ Total-read_scheme) (λ scheme _.
    Total-any {P = λ (_ : CertificateVerify). Unit {0}} (
      Total-then (Total-map_err _ Total-read_u16)
        (λ n _. Total-then (Total-any (Total-map_err _ (Total-slice n))) (λ q _. Total-pure _ tt))))

pub Encodes-certificate_verify : (v : CertificateVerify) → Encodes (encode v) (bytes v)
unfolding encode
Encodes-certificate_verify v =
    Encodes-bind (Encodes-push_u16 (SignatureScheme.as_u16 v.signature_scheme))
      (Encodes-with_u16_length (Encodes-extend_from_slice v.signature))

-- A CertificateVerify with a signature shorter than 2^16 bytes is encoded as exactly its bytes
-- and read back from them.
pub certificate_verify-round_trip :
    (v : CertificateVerify)
    → length v.signature < 2 ^ 16
    → Encodes (encode v) (bytes v) × Parses parse v (bytes v)
unfolding parse new
certificate_verify-round_trip v short = (
  Encodes-certificate_verify v,
  Parses-bind _ (Parses-map_err _ (Parses-read_scheme v.signature_scheme)) (
      Parses-bind _ (Parses-map_err _ (Parses-read_u16 (length v.signature) short))
        (Parses-end _ (Parses-map_err _ (Parses-slice v.signature)) (Parses-pure v))),
)
