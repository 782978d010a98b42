-- ===== src/Handshake/Certificate.antt =====
-- src/handshake/certificate.rs: `CertificateRef` and its entries.
pub mod Encoded
pub mod Owned
use embedded_tls.Prelude.{ℕ, none, some, List, [], arith, length}
use embedded_tls.Exec.{Result, ok, err, panic, Exec, pure, map_err, for_each, ◌>>=◌, ◌>>◌}
use embedded_tls.Error.{
  TlsError, invalid_certificate, invalid_certificate_entry, decode_error, insufficient_space,
}
use embedded_tls.Heapless.{Heapless}
use embedded_tls.Buffer.{Write, push_u16, extend_from_slice, with_u8_length, with_u24_length}
use embedded_tls.Parse.{ParseBuffer, read_u8, read_u24, slice, within, read_while}
use embedded_tls.Parse.Total.{
  Total, Total-any, Total-then, Total-bind, Total-weaken, Total-map_err, Total-pure, Total-read_u8,
  Total-read_u24, Total-slice, Total-within, After-read_while,
}
use embedded_tls.Extensions.{parse_vector}
use embedded_tls.Extensions.Total.{Total-parse_vector}
use embedded_tls.Extensions.Certificate.{arms, arms-Total}

pub data CertificateEntry : Type 0 where
  x509 : List ℕ → CertificateEntry
  raw_public_key : List ℕ → CertificateEntry

pub record Certificate : Type 0 where
  pub raw_entries : List ℕ
  pub request_context : List ℕ
  pub entries : List CertificateEntry

pub with_context : List ℕ → Certificate
with_context request_context = record {
  raw_entries = [];
  request_context = request_context;
  entries = [];
}

-- A raw public key is a `todo!`.
pub encode_entry : CertificateEntry → Write (Unit {0})
encode_entry (x509 cert) = with_u24_length (extend_from_slice cert) >> push_u16 0
encode_entry (raw_public_key key) = λ b. (panic, b)

pub encode_certificate : Certificate → Write (Unit {0})
encode_certificate c =
    with_u8_length (extend_from_slice c.request_context)
    >> with_u24_length (for_each encode_entry c.entries)

module _ ⦃h : Heapless⦄ where
  -- `CertificateRef::add`
  pub add : Certificate → CertificateEntry → Result TlsError Certificate
  add c entry = elim (h.push CertificateEntry 16 c.entries entry) [
    | none ↦ err insufficient_space
    | some entries ↦ ok (record c { entries = entries })
  ]

  pub parse_entry : Exec ParseBuffer TlsError CertificateEntry
  parse_entry = do
    entry_len ← map_err (λ _. invalid_certificate_entry) read_u24
    cert ← map_err (λ _. invalid_certificate_entry) (slice entry_len)
    extensions ← parse_vector arms 2
    pure (x509 cert.buffer)

  unfoldable pub parse_entries : ℕ → Exec ParseBuffer TlsError (List CertificateEntry)
  parse_entries n p = read_while parse_entry decode_error n (length p.buffer) [] p

  pub parse_certificate : Exec ParseBuffer TlsError Certificate
  parse_certificate = do
    request_context_len ← map_err (λ _. invalid_certificate) read_u8
    request_context ← map_err (λ _. invalid_certificate) (slice request_context_len)
    entries_len ← map_err (λ _. invalid_certificate) read_u24
    raw_entries ← map_err (λ _. invalid_certificate) (slice entries_len)
    (entries, raw) ← within raw_entries (parse_entries 16)
    pure (record {
      raw_entries = raw.buffer;
      request_context = request_context.buffer;
      entries = entries;
    })

  Total-parse_entry : Total 3 (λ _. Unit {0}) parse_entry
  unfolding parse_entry
  Total-parse_entry = Total-then (Total-map_err _ Total-read_u24) (λ n _.
      Total-then (Total-any (Total-map_err _ (Total-slice n))) (λ c _.
        Total-then (Total-any (Total-parse_vector arms 2 arms-Total)) (λ _ _. Total-pure _ tt)))

  pub Total-parse_entries : (n : ℕ) → Total 0 (λ _. Unit {0}) (parse_entries n)
  unfolding parse_entries
  Total-parse_entries n = record {
    at = λ p v.
        After-read_while parse_entry Total-parse_entry decode_error n (length p.buffer) [] p v
          (omega arith);
  }

  pub Total-parse_certificate : Total 1 (λ _. Unit {0}) parse_certificate
  unfolding parse_certificate
  Total-parse_certificate = Total-then (Total-map_err _ Total-read_u8) (λ n _.
      Total-then (Total-any (Total-map_err _ (Total-slice n))) (λ c _.
        Total-then (Total-any (Total-map_err _ Total-read_u24)) (λ m _.
          Total-weaken
            (Total-bind (Total-map_err _ (Total-slice m)) (λ q v.
              Total-then
                (Total-any (Total-within q (parse_entries 16) ((Total-parse_entries 16).at q v)))
                (λ x _. Total-pure _ tt)))
            (omega arith) (λ _ w. w))))
