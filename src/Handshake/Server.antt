-- ===== src/Handshake/Server.antt =====
-- src/handshake/mod.rs: `ServerHandshake`, its parser, and `read`, which keeps the transcript.
pub mod Transcript
use embedded_tls.Prelude.{
  ℕ, ◌+◌, ◌-◌, ◌≤◌, ◌≡◌, List, Option, none, some, length, take, drop, leb, if◌then◌else◌,
}
use embedded_tls.Exec.{Result, ok, err, panic, stuck, Exec, pure, raise, gets, map_err, ◌>>=◌, ◌>>◌}
use embedded_tls.Error.{TlsError, invalid_data, invalid_handshake, unimplemented}
use embedded_tls.Heapless.{Heapless}
use embedded_tls.Digest.{Digest}
use embedded_tls.Parse.{ParseBuffer, Read, read_u8, read_u24}
use embedded_tls.Parse.Total.{
  Total, Total-any, Total-then, Total-map_err, Total-pure, Total-raise, Total-read_u8,
  Total-read_u24,
}
use embedded_tls.Codec.Table.{ok_or, Total-ok_or}
use embedded_tls.Codec.HandshakeType
use embedded_tls.Codec.HandshakeType.{HandshakeType, of_code}
use embedded_tls.Handshake.CertificateVerify
use embedded_tls.Handshake.CertificateVerify.{CertificateVerify, parse_certificate_verify-Total}
use embedded_tls.Handshake.Finished
use embedded_tls.Handshake.Finished.{Finished, parse_finished-Total}
use embedded_tls.Handshake.ServerHello.{
  ServerHello, parse_server_hello, Total-parse_server_hello, parse_encrypted_extensions,
  Total-parse_encrypted_extensions,
}
use embedded_tls.Handshake.NewSessionTicket.{
  parse_new_session_ticket, Total-parse_new_session_ticket,
}
use embedded_tls.Handshake.Certificate.{Certificate, parse_certificate, Total-parse_certificate}
use embedded_tls.Handshake.CertificateRequest.{
  CertificateRequest, parse_certificate_request, Total-parse_certificate_request,
}

pub data ServerHandshake : Type 0 where
  server_hello : ServerHello → ServerHandshake
  encrypted_extensions : ServerHandshake
  new_session_ticket : ServerHandshake
  certificate : Certificate → ServerHandshake
  certificate_request : CertificateRequest → ServerHandshake
  certificate_verify : CertificateVerify → ServerHandshake
  finished : Finished → ServerHandshake

-- `HandshakeType::parse`
pub read_handshake_type : Read HandshakeType
read_handshake_type = do n ← read_u8; ok_or invalid_data (of_code n)

module _ ⦃h : Heapless⦄ (hash_len : ℕ) where
  pub parse_body : HandshakeType → ℕ → Exec ParseBuffer TlsError ServerHandshake
  parse_body HandshakeType.server_hello content_len = do
    m ← parse_server_hello
    pure (server_hello m)
  parse_body HandshakeType.new_session_ticket content_len = do
    m ← parse_new_session_ticket
    pure new_session_ticket
  parse_body HandshakeType.encrypted_extensions content_len = do
    m ← parse_encrypted_extensions
    pure encrypted_extensions
  parse_body HandshakeType.certificate content_len = do m ← parse_certificate; pure (certificate m)
  parse_body HandshakeType.certificate_request content_len = do
    m ← parse_certificate_request
    pure (certificate_request m)
  parse_body HandshakeType.certificate_verify content_len = do
    m ← CertificateVerify.parse
    pure (certificate_verify m)
  parse_body HandshakeType.finished content_len = do
    m ← Finished.parse hash_len content_len
    pure (finished m)
  parse_body _ content_len = raise unimplemented

  -- The announced length of the body is handed to the parser of `Finished` and to no other.
  pub parse_server_handshake : Exec ParseBuffer TlsError ServerHandshake
  parse_server_handshake = do
    handshake_type ← map_err (λ _. invalid_handshake) read_handshake_type
    content_len ← map_err (λ _. invalid_handshake) read_u24
    parse_body handshake_type content_len

  Total-parse_body : (t : HandshakeType) (n : ℕ) → Total 0 (λ _. Unit {0}) (parse_body t n)
  unfolding parse_body
  Total-parse_body HandshakeType.server_hello n =
      Total-then (Total-any Total-parse_server_hello) (λ m _. Total-pure _ tt)
  Total-parse_body HandshakeType.new_session_ticket n =
      Total-then (Total-any Total-parse_new_session_ticket) (λ m _. Total-pure _ tt)
  Total-parse_body HandshakeType.encrypted_extensions n =
      Total-then (Total-any Total-parse_encrypted_extensions) (λ m _. Total-pure _ tt)
  Total-parse_body HandshakeType.certificate n =
      Total-then (Total-any Total-parse_certificate) (λ m _. Total-pure _ tt)
  Total-parse_body HandshakeType.certificate_request n =
      Total-then (Total-any Total-parse_certificate_request) (λ m _. Total-pure _ tt)
  Total-parse_body HandshakeType.certificate_verify n =
      Total-then (Total-any parse_certificate_verify-Total) (λ m _. Total-pure _ tt)
  Total-parse_body HandshakeType.finished n =
      Total-then (Total-any (parse_finished-Total hash_len n)) (λ m _. Total-pure _ tt)
  Total-parse_body _ n = Total-raise _

  Total-read_handshake_type : Total 1 (λ _. Unit {0}) read_handshake_type
  unfolding read_handshake_type
  Total-read_handshake_type =
      Total-then Total-read_u8 (λ n _. Total-any (Total-ok_or _ (of_code n)))

  -- For any length of the hash and any input, the parser of handshake messages returns a
  -- message or an error: it does not panic, the loops over certificates and extensions end
  -- within their fuel, its cursor moves forth inside the bytes, and a success has read a byte
  -- at least.
  pub Total-parse_server_handshake : Total 1 (λ _. Unit {0}) parse_server_handshake
  unfolding parse_server_handshake
  Total-parse_server_handshake =
      Total-then (Total-map_err _ Total-read_handshake_type) (λ t _.
        Total-then (Total-any (Total-map_err _ Total-read_u24)) (λ n _. Total-parse_body t n))

-- `finished.hash.replace(..)`
abbrev pub with_hash : List ℕ → ServerHandshake → ServerHandshake
with_hash hash (finished f) = finished (record f { hash = some hash })
with_hash hash m = m

module _ ⦃h : Heapless⦄ (d : Digest) where
  abbrev pub Transcribed : Type 0 → Type 0
  Transcribed = Exec (ParseBuffer × d.State) TlsError

  pub on_buffer : {A : Type 0} → Exec ParseBuffer TlsError A → Transcribed A
  on_buffer m (p, t) = let (r, q) = m p in (r, (q, t))

  -- `digest.update(&buf.as_slice()[start..end])`
  pub update_range : ℕ → Transcribed (Unit {0})
  update_range start (p, t) =
      if leb start p.pos
      then if leb p.pos (length p.buffer)
        then (ok tt, (p, d.update t (take (p.pos - start) (drop start p.buffer))))
        else (panic, (p, t))
      else (panic, (p, t))

  pub read_server_handshake : Transcribed ServerHandshake
  read_server_handshake = do
    handshake_start ← gets (λ s. s.0.pos)
    handshake ← on_buffer (parse_server_handshake d.output_size)
    hash ← gets (λ s. d.finalize s.1)
    update_range handshake_start
    pure (with_hash hash handshake)
