-- ===== src/Extensions.antt =====
-- src/extensions/extension_group_macro.rs: what the macro `extension_group` makes of a group of
-- extensions. A group is given by the arms of the match in its `parse`: the parser of the data of each
-- extension that its message may carry.
pub mod Total
pub mod Skipping
pub mod Data
pub mod ServerHello
pub mod EncryptedExtensions
pub mod CertificateRequest
pub mod Certificate
pub mod NewSessionTicket
pub mod ClientHello
use embedded_tls.Prelude.{
  ℕ, zero, suc, Bool, true, false, List, [], ◌∷◌, Option, none, some, length, if◌then◌else◌,
}
use embedded_tls.Exec.{
  Result, ok, err, panic, stuck, Exec, pure, raise, map_err, outcome, ◌>>=◌, ◌>>◌,
}
use embedded_tls.Error.{
  ParseError, insufficient_bytes, insufficient_space, invalid_data, TlsError, abort_handshake,
  fatal, illegal_parameter, decode_error, unknown_extension_type, invalid_extensions_length,
  parse_error,
}
use embedded_tls.Heapless.{Heapless}
use embedded_tls.Parse.{ParseBuffer, Read, is_empty, lift, read_u16, slice, within, push_or}
use embedded_tls.Codec.Table.{ok_or}
use embedded_tls.Codec.ExtensionType.{ExtensionType, of_code}

-- `ExtensionType::parse`
pub read_extension_type : Read ExtensionType
read_extension_type = do n ← read_u16; ok_or invalid_data (of_code n)

module _ {E F A : Type 0} where
  abbrev pub settle : Result E A → Result F (Result E A)
  settle (ok a) = ok (ok a)
  settle (err e) = ok (err e)
  settle panic = panic
  settle stuck = stuck

module _ {S E F A : Type 0} where
  -- An action whose error is looked at later, as a value.
  unfoldable pub attempt : Exec S E A → Exec S F (Result E A)
  attempt m s = let (r, s') = m s in (settle r, s')

-- The extension type, whether it was recognised or not, and the data: both are read in any case.
pub extension_head : Exec ParseBuffer TlsError (Result ParseError ExtensionType × ParseBuffer)
extension_head = do
  extension_type ← attempt read_extension_type
  data_len ← map_err (λ _. decode_error) read_u16
  ext_data ← map_err (λ _. decode_error) (slice data_len)
  pure (extension_type, ext_data)

-- `map_err` of the `extension_type`
abbrev pub recognised : Result ParseError ExtensionType → Result TlsError ExtensionType
recognised (ok t) = ok t
recognised (err invalid_data) = err unknown_extension_type
recognised (err insufficient_bytes) = err decode_error
recognised (err insufficient_space) = err decode_error
recognised panic = panic
recognised stuck = stuck

module _ {G : Type 0} where
  -- the arm of the type, on the data alone; what it leaves of them is dropped
  abbrev pub extension_data : Option (Read G) → ParseBuffer → Exec ParseBuffer TlsError G
  extension_data none ext_data = raise (abort_handshake fatal illegal_parameter)
  extension_data (some read) ext_data =
      within ext_data (map_err (λ _. decode_error) read) >>= λ x. pure (x.0)

module _ {G : Type 0} (arms : ExtensionType → Option (Read G)) where
  pub judge : Result ParseError ExtensionType × ParseBuffer → Exec ParseBuffer TlsError G
  judge (extension_type, ext_data) =
      outcome (recognised extension_type) >>= λ t. extension_data (arms t) ext_data

  pub parse_extension : Exec ParseBuffer TlsError G
  parse_extension = extension_head >>= judge

abbrev pub is_unknown : TlsError → Bool
is_unknown unknown_extension_type = true
is_unknown _ = false

module _ {G : Type 0} where
  abbrev pub forgive : Result TlsError G → Result TlsError (Option G)
  forgive (ok g) = ok (some g)
  forgive (err e) = if is_unknown e then ok none else err e
  forgive panic = panic
  forgive stuck = stuck

  -- the `match` on the parsed extension: an unrecognised one is passed over
  pub known : Exec ParseBuffer TlsError G → Exec ParseBuffer TlsError (Option G)
  known m p = let (r, q) = m p in (forgive r, q)

module _ {E A B : Type 0} where
  -- `while !buf.is_empty() { acc = put(acc, read(buf)?)?; }` with fuel for as many rounds as bytes are left
  pub fold_while :
      Exec ParseBuffer E A → (B → A → Exec ParseBuffer E B) → ℕ → B → Exec ParseBuffer E B
  fold_while read put zero acc p = if is_empty p then (ok acc, p) else (stuck, p)
  fold_while read put (suc fuel) acc p =
      let rest = (do x ← read; next ← put acc x; fold_while read put fuel next) p in
      if is_empty p then (ok acc, p) else rest

module _ {G : Type 0} ⦃h : Heapless⦄ where
  pub push_known : ℕ → List G → Option G → Exec ParseBuffer TlsError (List G)
  push_known n xs none = pure xs
  push_known n xs (some x) = push_or decode_error n xs x

  pub parse_vector : (ExtensionType → Option (Read G)) → ℕ → Exec ParseBuffer TlsError (List G)
  parse_vector arms n = do
    extensions_len ← map_err (λ _. invalid_extensions_length) read_u16
    ext_buf ← lift (slice extensions_len)
    (extensions, _) ←
        within ext_buf
          (λ p. fold_while (known (parse_extension arms)) (push_known n) (length p.buffer) [] p)
    pure extensions
