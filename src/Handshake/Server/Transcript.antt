-- ===== src/Handshake/Server/Transcript.antt =====
-- `ServerHandshake::read` on any input.
use embedded_tls.Prelude.{ℕ, some, ◌-◌, ◌≤◌, ◌≡◌, refl, ap, List, arith, length, take, drop, le→leb}
use embedded_tls.Exec.{Result, ok, err, panic, stuck, Returns, pure, gets, continue, ◌>>=◌}
use embedded_tls.Error.{TlsError}
use embedded_tls.Heapless.{Heapless}
use embedded_tls.Digest.{Digest}
use embedded_tls.Parse.{ParseBuffer}
use embedded_tls.Parse.Total.{IsValid, After}
use embedded_tls.Handshake.Server.{
  ServerHandshake, server_hello, encrypted_extensions, new_session_ticket, certificate,
  certificate_request, certificate_verify, finished, with_hash, on_buffer, update_range,
  parse_server_handshake, Total-parse_server_handshake, read_server_handshake,
}

-- the bytes between two positions of the cursor
abbrev pub between : ParseBuffer → ParseBuffer → List ℕ
between p q = take (q.pos - p.pos) (drop p.pos p.buffer)

-- A Finished message carries the hash; any other message is as it was read.
abbrev pub hashed : List ℕ → Result TlsError ServerHandshake → Result TlsError ServerHandshake
hashed hash (ok (finished f)) = ok (finished (record { verify = f.verify; hash = some hash }))
hashed hash (ok m) = ok m
hashed hash (err e) = err e
hashed hash panic = panic
hashed hash stuck = stuck

with_hash-hashed :
    (hash : List ℕ) (m : ServerHandshake)
    → ◌≡◌ {A = Result TlsError ServerHandshake} (ok (with_hash hash m)) (hashed hash (ok m))
with_hash-hashed hash (server_hello m) = refl
with_hash-hashed hash encrypted_extensions = refl
with_hash-hashed hash new_session_ticket = refl
with_hash-hashed hash (certificate m) = refl
with_hash-hashed hash (certificate_request m) = refl
with_hash-hashed hash (certificate_verify m) = refl
with_hash-hashed hash (finished m) = refl

-- What `read` made of the transcript `t`: where a message was read, its bytes are added, and a Finished
-- message carries the hash of what came before it; where none was read, the transcript is as it was.
pub record Reads (d : Digest) (p : ParseBuffer) (t : d.State)
    (parsed : Result TlsError ServerHandshake)
    (out : Result TlsError ServerHandshake × (ParseBuffer × d.State)) : Type 0 where
  pub returns : Returns out.0
  pub same : out.1.0.buffer ≡ p.buffer
  pub forth : p.pos ≤ out.1.0.pos
  pub inside : out.1.0.pos ≤ length p.buffer
  pub message : out.0 ≡ hashed (d.finalize t) parsed
  pub transcript : out.1.1 ≡ elim parsed [ ok m ↦ d.update t (between p out.1.0) | _ ↦ t ]

module _ ⦃h : Heapless⦄ (d : Digest) where
  update_range_lem :
      (start : ℕ) (p : ParseBuffer) (t : d.State)
      → start ≤ p.pos
      → p.pos ≤ length p.buffer
      → update_range d start (p, t)
        ≡ (ok tt, (p, d.update t (take (p.pos - start) (drop start p.buffer))))
  unfolding update_range
  update_range_lem start p t a b = rw (le→leb start p.pos a, le→leb p.pos (length p.buffer) b)

  -- `ServerHandshake::read` returns from any cursor that stands inside its buffer, with a
  -- value or an error and never a panic: the cursor has moved forth and stands inside the same
  -- buffer; the result is the one of the parser, in which a Finished message carries the hash
  -- of the transcript before it; where a message was parsed, the transcript is updated with
  -- exactly the bytes between the two cursors, and where none was, it is unchanged.
  pub read_server_handshake-Reads :
      (p : ParseBuffer) (t : d.State)
      → IsValid p
      → Reads d p t (parse_server_handshake d.output_size p).0 (read_server_handshake d (p, t))
  unfolding read_server_handshake on_buffer pure gets ◌>>=◌
  read_server_handshake-Reads p t v =
      go (parse_server_handshake d.output_size p).0 (parse_server_handshake d.output_size p).1
        ((Total-parse_server_handshake d.output_size).at p v)
    where
      go :
          (r : Result TlsError ServerHandshake) (q : ParseBuffer)
          → After 1 (λ _. Unit {0}) p (r, q)
          → Reads d p t r (
              continue r
                (λ m. gets (λ s. d.finalize s.1) >>= λ hash.
                  update_range d p.pos >>= λ _. pure (with_hash hash m))
                (q, t))
      go (ok m) q s =
          rw (update_range_lem p.pos q t s.forth (omega (arith, s.inside, ap length s.same)))
            (record {
              returns = tt;
              same = s.same;
              forth = s.forth;
              inside = s.inside;
              message = with_hash-hashed (d.finalize t) m;
              transcript = ap (λ b. d.update t (take (q.pos - p.pos) (drop p.pos b))) s.same;
            })
      go (err e) q s = record {
        returns = tt;
        same = s.same;
        forth = s.forth;
        inside = s.inside;
        message = refl;
        transcript = refl;
      }
      go panic q s = absurd s.returns
      go stuck q s = absurd s.returns
