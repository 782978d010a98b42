-- ===== src/Connection/ReadHandler.antt =====
-- src/common/decrypted_read_handler.rs: what an open connection does with a decrypted record. The pointers
-- into the read buffer are positions in it: `size` is its length, and `base` the position at which the
-- array of the record's buffer starts. The debug assertion panics.
use embedded_tls.Prelude.{
  ℕ, Bool-cases, inl, inr, ◌+◌, ◌≤◌, ◌≡◌, refl, Bool, true, false, ◌&&◌, List, arith, length, ltb,
  if◌then◌else◌,
}
use embedded_tls.Exec.{
  Result, ok, err, panic, stuck, Exec, pure, raise, continue, outcome, ◌>>=◌, ◌>>◌,
}
use embedded_tls.Error.{TlsError, internal_error, connection_closed, AlertDescription, close_notify}
use embedded_tls.Buffer.{as_slice}
use embedded_tls.ReadBuffer.{DecryptedBufferInfo}
use embedded_tls.ReadBuffer.Stream.{InfoIsValid}
use embedded_tls.Handshake.Server.{new_session_ticket}
use embedded_tls.ServerRecord.{
  ServerRecord, ApplicationData, handshake, change_cipher_spec, alert, application_data,
}

-- the window and `is_open`
abbrev pub Handling : Type 0 → Type 0
Handling = Exec (DecryptedBufferInfo × Bool) TlsError

pub set_window : ℕ → ℕ → ℕ → Handling (Unit {0})
set_window size start n s =
    if ltb start size && ltb (start + n) size
    then (ok tt, (record { offset = start; len = n; consumed = 0 }, s.1))
    else (panic, s)

pub close : Handling (Unit {0})
close s = (ok tt, (s.0, false))

pub handle_alert : AlertDescription → Handling (Unit {0})
handle_alert close_notify = close >> raise connection_closed
handle_alert _ = raise internal_error

pub handle : ℕ → ℕ → ServerRecord → Handling (Unit {0})
handle size base (application_data a) = do
  slice ← outcome (as_slice a.contents).0
  set_window size (base + a.contents.offset) (length slice)
handle size base (alert a) = handle_alert a.description
handle size base change_cipher_spec = raise internal_error
handle size base (handshake new_session_ticket) = pure tt
handle size base (handshake _) = λ s. (panic, s)

module _ (bytes : List ℕ) where
  set_window-InfoIsValid :
      (start n : ℕ) (s : DecryptedBufferInfo × Bool)
      → InfoIsValid bytes s.0
      → InfoIsValid bytes (set_window (length bytes) start n s).1.0
  unfolding set_window
  set_window-InfoIsValid start n s v =
      elim (Bool-cases (ltb start (length bytes) && ltb (start + n) (length bytes))) [
        | inl p ↦ rw p (record { inside = less_than p; behind = omega arith })
        | inr p ↦ rw p v
      ]
    where
      less_than :
          (ltb start (length bytes) && ltb (start + n) (length bytes)) ≡ true
          → start + n ≤ length bytes
      less_than p = ground arith

  handle_alert-window :
      (d : AlertDescription) (s : DecryptedBufferInfo × Bool) → (handle_alert d s).1.0 ≡ s.0
  unfolding handle_alert close raise ◌>>=◌
  handle_alert-window close_notify s = refl
  handle_alert-window _ s = refl

  handle_application_data-InfoIsValid :
      (base : ℕ) (a : ApplicationData) (s : DecryptedBufferInfo × Bool)
      → InfoIsValid bytes s.0
      → InfoIsValid bytes (handle (length bytes) base (application_data a) s).1.0
  unfolding handle ◌>>=◌
  handle_application_data-InfoIsValid base a s v = go (as_slice a.contents).0
    where
      go :
          (res : Result TlsError (List ℕ))
          → InfoIsValid bytes
              (continue res
                (λ slice. set_window (length bytes) (base + a.contents.offset) (length slice))
                s).1.0
      go (ok slice) = set_window-InfoIsValid (base + a.contents.offset) (length slice) s v
      go (err _) = v
      go panic = v
      go stuck = v

  -- Whatever record an open connection handles and wherever its buffer stands, also where that
  -- ends in an error or a panic, the window of the decrypted bytes lies inside the read buffer
  -- if it did before.
  pub handle-InfoIsValid :
      (base : ℕ) (r : ServerRecord) (s : DecryptedBufferInfo × Bool)
      → InfoIsValid bytes s.0
      → InfoIsValid bytes (handle (length bytes) base r s).1.0
  unfolding handle raise pure
  handle-InfoIsValid base (application_data a) s v = handle_application_data-InfoIsValid base a s v
  handle-InfoIsValid base (alert a) s v = rw (handle_alert-window a.description s) v
  handle-InfoIsValid base change_cipher_spec s v = v
  handle-InfoIsValid base (handshake new_session_ticket) s v = v
  handle-InfoIsValid base (handshake _) s v = v
