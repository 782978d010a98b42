-- ===== src/Handshake/CertificateRequest.antt =====
-- src/handshake/certificate_request.rs.
use embedded_tls.Prelude.{ℕ, List, [], none, some}
use embedded_tls.Exec.{Result, ok, err, Exec, pure, map_err, ◌>>=◌}
use embedded_tls.Error.{TlsError, invalid_certificate_request, insufficient_space}
use embedded_tls.Heapless.{Heapless}
use embedded_tls.Parse.{ParseBuffer, read_u8, slice}
use embedded_tls.Parse.Total.{
  Total, Total-any, Total-then, Total-map_err, Total-pure, Total-read_u8, Total-slice,
}
use embedded_tls.Extensions.{parse_vector}
use embedded_tls.Extensions.Total.{Total-parse_vector}
use embedded_tls.Extensions.CertificateRequest.{arms, arms-Total}

-- `CertificateRequestRef` and `CertificateRequest` both hold the request context, one as a slice, the
-- other as a vector of at most 256 bytes.
pub record CertificateRequest : Type 0 where
  pub request_context : List ℕ

module _ ⦃h : Heapless⦄ where
  -- `CertificateRequest::try_from`
  pub keep_request : CertificateRequest → Result TlsError CertificateRequest
  keep_request r = elim (h.extend ℕ 256 [] r.request_context) [
    | none ↦ err insufficient_space
    | some context ↦ ok (record { request_context = context })
  ]

  pub parse_certificate_request : Exec ParseBuffer TlsError CertificateRequest
  parse_certificate_request = do
    request_context_len ← map_err (λ _. invalid_certificate_request) read_u8
    request_context ← map_err (λ _. invalid_certificate_request) (slice request_context_len)
    extensions ← parse_vector arms 6
    pure (record { request_context = request_context.buffer })

  pub Total-parse_certificate_request : Total 1 (λ _. Unit {0}) parse_certificate_request
  unfolding parse_certificate_request
  Total-parse_certificate_request = Total-then (Total-map_err _ Total-read_u8) (λ n _.
      Total-then (Total-any (Total-map_err _ (Total-slice n))) (λ c _.
        Total-then (Total-any (Total-parse_vector arms 6 arms-Total)) (λ _ _. Total-pure _ tt)))
