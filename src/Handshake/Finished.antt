-- ===== src/Handshake/Finished.antt =====
-- src/handshake/finished.rs: `Finished`. `n` is the output size of the hash, the length of `verify`.
use embedded_tls.Prelude.{ℕ, ◌≡◌, Option, none, List, length}
use embedded_tls.Exec.{Exec, pure, map_err, ◌>>=◌}
use embedded_tls.Error.{TlsError, encode_error}
use embedded_tls.Buffer.{Write, extend_from_slice}
use embedded_tls.Buffer.Encodes.{Encodes, Encodes-map_err, Encodes-extend_from_slice}
use embedded_tls.Parse.{ParseBuffer, lift, fill}
use embedded_tls.Parse.Total.{Total, Total-then, Total-map_err, Total-pure, Total-fill}
use embedded_tls.Parse.Parses.{Parses, Parses-end, Parses-map_err, Parses-pure, Parses-fill}

pub record Finished : Type 0 where
  pub verify : List ℕ
  pub hash : Option (List ℕ)

-- The announced length is not looked at.
pub parse : ℕ → ℕ → Exec ParseBuffer TlsError Finished
parse n _ = do verify ← lift (fill n); pure (record { verify = verify; hash = none })

pub encode : Finished → Write (Unit {0})
encode f = map_err (λ _. encode_error) (extend_from_slice f.verify)

pub parse_finished-Total : (n len : ℕ) → Total n (λ f. length f.verify ≡ n) (parse n len)
unfolding parse
parse_finished-Total n len = Total-then (Total-map_err _ (Total-fill n)) (λ bs e. Total-pure _ e)

pub Encodes-finished : (f : Finished) → Encodes (encode f) f.verify
unfolding encode
Encodes-finished f = Encodes-map_err _ (Encodes-extend_from_slice f.verify)

-- A Finished message without a hash is encoded as exactly its verify data, and read back from
-- it by the parser for that length, whatever length was announced.
pub finished-round_trip :
    (verify : List ℕ) (len : ℕ)
    → let f : Finished = record { verify = verify; hash = none } in
      Encodes (encode f) verify × Parses (parse (length verify) len) f verify
unfolding parse
finished-round_trip verify len = (
  Encodes-finished (record { verify = verify; hash = none }),
  Parses-end _ (Parses-map_err _ (Parses-fill verify)) (Parses-pure _),
)
