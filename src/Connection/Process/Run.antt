-- ===== src/Connection/Process/Run.antt =====
-- Runs of the handshake: the steps of `State::process` one behind the other, from the state `ClientHello` on.
use embedded_tls.Prelude.{ℕ, ◌≡◌, refl, sym, subst, inl, inr, ◌⊎◌, Option, List}
use embedded_tls.Exec.{Result, ok, bind-returned}
use embedded_tls.Error.{TlsError}
use embedded_tls.Heapless.{Heapless}
use embedded_tls.Suite.{Suite}
use embedded_tls.Ecdh.{Ecdh}
use embedded_tls.Transport.{Transport}
use embedded_tls.Provider.{Provider}
use embedded_tls.KeySchedule.Secrets.{KeySchedule}
use embedded_tls.Handshake.ClientHello.{TlsConfig}
use embedded_tls.ServerRecord.{ServerRecord}
use embedded_tls.Connection.State.{State, Handshake}
use embedded_tls.Connection.Handing.{handed}
use embedded_tls.Connection.Steps.{process_server_verify, verify_record}
use embedded_tls.Connection.Steps.Authentic.{Authentic, Confirmed, process_server_verify-Confirmed}
use embedded_tls.Connection.Process.{Peer, process, receive}
use embedded_tls.Connection.Process.Transition.{
  Transition, hello_sent, hello_received, more_to_verify, certificate_requested, server_verified,
  certificate_sent, no_certificate, signature_sent, finished_sent, established, process-Transition,
  verification_returned,
}

-- The states behind the server's Finished message.
abbrev pub IsVerified : State → Type 0
IsVerified State.client_hello = ⊥
IsVerified State.server_hello = ⊥
IsVerified State.server_verify = ⊥
IsVerified _ = Unit

-- A verified state comes from a verified one, or from `ServerVerify`.
IsVerified-before :
    {s s' : State} → Transition s s' → IsVerified s' → IsVerified s ⊎ (s ≡ State.server_verify)
IsVerified-before hello_sent i = absurd i
IsVerified-before hello_received i = absurd i
IsVerified-before more_to_verify i = absurd i
IsVerified-before certificate_requested i = inr refl
IsVerified-before server_verified i = inr refl
IsVerified-before certificate_sent i = inl tt
IsVerified-before no_certificate i = inl tt
IsVerified-before signature_sent i = inl tt
IsVerified-before finished_sent i = inl tt
IsVerified-before established i = inl tt

module _ (c : Suite) (e : Ecdh) where
  Confirmed-Authentic :
      (o : Option (List ℕ)) (log : List ServerRecord) (next : State) (hs : Handshake c e)
      → Confirmed c e o log next hs
      → IsVerified next
      → Authentic c e o log
  Confirmed-Authentic o log State.client_cert hs i v = i.0
  Confirmed-Authentic o log State.client_finished hs i v = i.0
  Confirmed-Authentic o log State.server_verify hs i v = absurd v
  Confirmed-Authentic o log _ hs i v = absurd i

module _ ⦃h : Heapless⦄ (c : Suite) (e : Ecdh) (tr : Transport) (pr : Provider c e)
    (config : TlsConfig) where
  -- a state and what the connection is in it
  abbrev pub At : Type 0
  At = State × Peer c e tr pr

  pub data Run (s : At) : At → Type 0 where
    here : Run s s
    next :
        {t : At} {s' : State} {w' : Peer c e tr pr}
        → Run s t
        → process c e tr pr config t.0 t.1 ≡ (ok s', w')
        → Run s (s', w')

  -- what `process_server_verify` makes of a record of the server
  abbrev pub verification :
      ServerRecord
      → Peer c e tr pr
      → Result TlsError State × (Handshake c e × (KeySchedule c × pr.verifier.State))
  verification r w =
      process_server_verify c e pr.verifier r (w.handshake, (w.key_schedule, w.provider))

  -- On the way a record was received in the state `ServerVerify` that carries an authentic Finished
  -- message.
  pub record Authenticated (w : Peer c e tr pr) : Type 0 where
    pub v : Peer c e tr pr
    pub before : Run (State.client_hello, w) (State.server_verify, v)
    pub r : ServerRecord
    pub u : Peer c e tr pr
    pub received : receive c e tr pr v ≡ (ok r, u)
    pub authentic : Authentic c e (verification r u).1.1.0.server_state.state.traffic_secret (
        handed c
          (verify_record c e pr.verifier)
          r
          (u.key_schedule.server_state, (u.handshake, (State.server_verify, u.provider))))

  module _ (w : Peer c e tr pr) where
    verify_step :
        (v w' : Peer c e tr pr) (s' : State)
        → Run (State.client_hello, w) (State.server_verify, v)
        → process c e tr pr config State.server_verify v ≡ (ok s', w')
        → IsVerified s'
        → Authenticated w
    unfolding process
    verify_step v w' s' before p i =
        let (r, u, q, p1) = bind-returned (receive c e tr pr) _ p in
        record {
          v = v;
          before = before;
          r = r;
          u = u;
          received = q;
          authentic =
              Confirmed-Authentic c e _ _ s' _
                (process_server_verify-Confirmed c e pr.verifier r u.handshake u.key_schedule
                  u.provider s'
                  (verification_returned c e tr pr (process_server_verify c e pr.verifier r) u w' s'
                    p1))
                i;
        }

    pub Run-Authenticated :
        {t : At} → Run (State.client_hello, w) t → IsVerified t.0 → Authenticated w
    Run-Authenticated here i = absurd i
    Run-Authenticated (next {t} {s'} {w'} before p) i =
        elim (IsVerified-before (process-Transition c e tr pr config t.1 w' t.0 s' p) i) [
          | inl old ↦ Run-Authenticated before old
          | inr q ↦
              subst
                (λ s.
                  Run (State.client_hello, w) (s, t.1)
                  → process c e tr pr config s t.1 ≡ (ok s', w')
                  → Authenticated w)
                (sym q) (λ b p. verify_step t.1 w' s' b p i) before p
        ]
