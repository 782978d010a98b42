-- ===== src/Codec/Alert.antt =====
-- src/alert.rs: `Alert`, its parser and its encoder.
use embedded_tls.Prelude.{ℕ, List, [], ◌∷◌}
use embedded_tls.Exec.{Exec, pure, map_err, ◌>>=◌, ◌>>◌}
use embedded_tls.Error.{AlertLevel, AlertDescription, TlsError, encode_error, decode_error}
use embedded_tls.Buffer.{Write, push}
use embedded_tls.Buffer.Encodes.{Encodes, Encodes-push, Encodes-bind, Encodes-map_err}
use embedded_tls.Parse.{ParseBuffer, lift, read_u8}
use embedded_tls.Parse.Total.{Total, Total-bind, Total-map_err, Total-pure, Total-read_u8}
use embedded_tls.Parse.Parses.{Parses, Parses-bind, Parses-map_err, Parses-pure, Parses-read_u8}
use embedded_tls.Codec.Table.{ok_or, Total-ok_or, Parses-ok_or}
use embedded_tls.Codec.AlertCodes.{
  level_code, level_of, description_code, description_of, level_of-level_code,
  description_of-description_code,
}

pub record Alert : Type 0 where
  pub level : AlertLevel
  pub description : AlertDescription

pub parse : Exec ParseBuffer TlsError Alert
parse = do
  level ← lift read_u8
  desc ← lift read_u8
  l ← ok_or decode_error (level_of level)
  d ← ok_or decode_error (description_of desc)
  pure (record { level = l; description = d })

pub encode : Alert → Write (Unit {0})
encode a =
    map_err (λ _. encode_error) (push (level_code a.level))
    >> map_err (λ _. encode_error) (push (description_code a.description))

abbrev pub bytes : Alert → List ℕ
bytes a = level_code a.level ∷ description_code a.description ∷ []

-- The encoder of alerts appends exactly the codes of the level and of the description, or
-- fails for lack of room; it never panics.
pub encode-Encodes : (a : Alert) → Encodes (encode a) (bytes a)
unfolding encode
encode-Encodes a =
    Encodes-bind (Encodes-map_err _ (Encodes-push (level_code a.level)))
      (Encodes-map_err _ (Encodes-push (description_code a.description)))

-- The parser of alerts reads back any alert from its two bytes, whatever follows.
pub parse-Parses : (a : Alert) → Parses parse a (bytes a)
unfolding parse
parse-Parses a = Parses-bind _ (Parses-map_err _ (Parses-read_u8 (level_code a.level))) (
    Parses-bind _ (Parses-map_err _ (Parses-read_u8 (description_code a.description))) (
      Parses-bind _ (Parses-ok_or _ _ (level_of-level_code a.level)) (
        Parses-bind _ (Parses-ok_or _ _ (description_of-description_code a.description))
          (Parses-pure a))))

-- The parser of alerts returns on any input: it does not panic, its cursor stays inside the
-- bytes, and a success has read two bytes at least.
pub parse-Total : Total 2 (λ a. Unit {0}) parse
unfolding parse
parse-Total = Total-bind (Total-map_err _ Total-read_u8) (λ level _.
    Total-bind (Total-map_err _ Total-read_u8) (λ desc _.
      Total-bind (Total-ok_or _ (level_of level))
        (λ l _. Total-bind (Total-ok_or _ (description_of desc)) (λ d _. Total-pure _ tt))))
