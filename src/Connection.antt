-- ===== src/Connection.antt =====
-- src/connection.rs: the reading half of the handshake. `decrypt_record` is given to a callback, an
-- action on the read half of the key schedule and on what the callback holds.
pub mod Decrypt
pub mod Handing
pub mod State
pub mod Steps
pub mod Receive
pub mod ReadHandler
pub mod Process
use embedded_tls.Prelude.{
  ℕ, zero, suc, ◌+◌, ◌-◌, Bool, true, false, List, [], ◌∷◌, Option, none, some, length, ltb, ◌==◌,
  if◌then◌else◌,
}
use embedded_tls.Exec.{
  Result, ok, err, panic, stuck, Exec, pure, raise, gets, unwrap, map_err, outcome, sub, on_left,
  on_right, with_local, scoped, ◌>>=◌, ◌>>◌,
}
use embedded_tls.Error.{TlsError, invalid_record, unimplemented, crypto_error}
use embedded_tls.Heapless.{Heapless}
use embedded_tls.Suite.{Suite}
use embedded_tls.Buffer.{CryptoBuffer, Write, as_slice, truncate}
use embedded_tls.Parse.{ParseBuffer, remaining}
use embedded_tls.Parse
use embedded_tls.Codec.Alert
use embedded_tls.Codec.ContentType.{ContentType, of_code}
use embedded_tls.Codec.Header.{RecordHeader}
use embedded_tls.KeySchedule.{KeyScheduleState, get_nonce, increment_counter}
use embedded_tls.KeySchedule.Secrets.{ReadKeySchedule, require}
use embedded_tls.Handshake.Server.{ServerHandshake, read_server_handshake}
use embedded_tls.ServerRecord.{ServerRecord, ApplicationData, handshake, alert, application_data}

-- `data()` of a record header
abbrev pub header_bytes : RecordHeader → List ℕ
header_bytes h = h.b0 ∷ h.b1 ∷ h.b2 ∷ h.b3 ∷ h.b4 ∷ []

-- The index of the last byte that is not 0: `rfind`.
abbrev pub last_nonzero : List ℕ → Option ℕ
last_nonzero [] = none
last_nonzero (x ∷ xs) = elim (last_nonzero xs) [
  | some i ↦ some (suc i)
  | none ↦ if x == 0 then none else some 0
]

abbrev pub last_of : List ℕ → Option ℕ
last_of [] = none
last_of (x ∷ []) = some x
last_of (x ∷ y ∷ xs) = last_of (y ∷ xs)

-- `if let Some((index, _)) = padding { app_data.truncate(index + 1) }`
abbrev pub drop_padding : Option ℕ → Write (Unit {0})
drop_padding none = pure tt
drop_padding (some index) = truncate (index + 1)

-- the content type, which is cut off behind the content
pub strip : Write ContentType
strip = do
  padded ← as_slice
  drop_padding (last_nonzero padded)
  inner ← as_slice
  byte ← unwrap (last_of inner)
  content_type ← require invalid_record (of_code byte)
  n ← gets (λ b. b.len)
  m ← sub n 1
  truncate m
  pure content_type

-- a round of a loop, where anything is left
abbrev pub while_left : {S E : Type 0} → Exec S E (Unit {0}) → ℕ → Exec S E (Unit {0})
while_left m left s = let rest = m s in if ltb 0 left then rest else (ok tt, s)

abbrev pub Reading : Suite → Type 0 → Type 0 → Type 0
Reading c H = Exec (ReadKeySchedule c × H) TlsError

module _ ⦃h : Heapless⦄ (c : Suite) {H : Type 0} where
  -- The next message, on which the transcript is updated.
  pub next_message : Exec (ParseBuffer × (ReadKeySchedule c × H)) TlsError ServerHandshake
  next_message (p, (k, x)) =
      let (r, (q, t)) = read_server_handshake c.digest (p, k.transcript_hash) in
      (r, (q, (record k { transcript_hash = t }, x)))

  pub on_keys : {A : Type 0} → Exec KeyScheduleState TlsError A → Reading c H A
  on_keys m (k, x) = let (r, s) = m k.state in (r, (record k { state = s }, x))

  module _ (cb : ServerRecord → Reading c H (Unit {0})) where
    -- `while buf.remaining() > 0 { … }` Each round reads a byte, so as many rounds as bytes are enough.
    pub each_message : ℕ → Exec (ParseBuffer × (ReadKeySchedule c × H)) TlsError (Unit {0})
    each_message zero = on_left remaining >>= while_left (λ s. (stuck, s))
    each_message (suc fuel) =
        on_left remaining
        >>= while_left
            (next_message >>= λ inner. on_right (cb (handshake inner)) >> each_message fuel)

    pub pass_on : RecordHeader → ContentType → CryptoBuffer → Reading c H (Unit {0})
    pass_on header ContentType.handshake app_data = do
      bytes ← outcome (as_slice app_data).0
      with_local (Parse.new bytes) (each_message (length bytes))
    pass_on header ContentType.application_data app_data =
        cb (application_data (record { header = header; contents = app_data }))
    pass_on header ContentType.alert app_data = do
      bytes ← outcome (as_slice app_data).0
      a ← outcome (Alert.parse (Parse.new bytes)).0
      cb (alert a)
    pass_on header _ app_data = raise unimplemented

    pub decrypt_application_data : ApplicationData → Reading c H (Unit {0})
    decrypt_application_data a = do
      keys ← gets (λ s. s.0.state)
      nonce ← outcome (get_nonce keys)
      (content_type, app_data) ← scoped a.contents (
          map_err (λ _. crypto_error)
            (c.aead.decrypt_in_place keys.key nonce (header_bytes a.header))
          >> strip)
      pass_on a.header content_type app_data
      on_keys increment_counter

    pub decrypt_record : ServerRecord → Reading c H (Unit {0})
    decrypt_record (application_data a) = decrypt_application_data a
    decrypt_record r = cb r
