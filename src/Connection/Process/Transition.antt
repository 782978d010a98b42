-- ===== src/Connection/Process/Transition.antt =====
-- The states that `State::process` leads to.
use embedded_tls.Prelude.{ℕ, ◌≡◌, refl, ap, sym, subst, ◌∙◌, Option, none, some, List}
use embedded_tls.Exec.{
  Result, ok, err, panic, stuck, Exec, pure, outcome, bind-returned, returned-injective,
  ok-injective, err_not_ok, ◌>>=◌, ◌>>◌,
}
use embedded_tls.Error.{TlsError}
use embedded_tls.Heapless.{Heapless}
use embedded_tls.Suite.{Suite}
use embedded_tls.Ecdh.{Ecdh}
use embedded_tls.Transport.{Transport}
use embedded_tls.Provider.{Provider}
use embedded_tls.KeySchedule.Secrets.{KeySchedule}
use embedded_tls.Handshake.Certificate.{Certificate, CertificateEntry, add}
use embedded_tls.Handshake.ClientHello.{TlsConfig}
use embedded_tls.ServerRecord.{ServerRecord}
use embedded_tls.ClientRecord.{ClientRecord}
use embedded_tls.Codec.SignatureScheme.{SignatureScheme}
use embedded_tls.Connection.State.{State, Handshake}
use embedded_tls.Connection.Steps.{
  process_server_hello, process_server_verify, client_finished_finalize,
}
use embedded_tls.Connection.Steps.Authentic.{Confirmed, process_server_verify-Confirmed}
use embedded_tls.Connection.Steps.Next.{process_server_hello-next, client_finished_finalize-next}
use embedded_tls.Connection.Process.{
  Peer, Processing, process, handled, handle_processing_error, alert_error, respond,
  send_client_hello, with_cert, added, send_client_cert, verify_record, on_handshake_keys,
  on_verification, send_client_cert_verify,
}

-- The steps that the handshake may take; only the wait for the server's Finished may repeat.
pub data Transition : State → State → Type 0 where
  hello_sent : Transition State.client_hello State.server_hello
  hello_received : Transition State.server_hello State.server_verify
  more_to_verify : Transition State.server_verify State.server_verify
  certificate_requested : Transition State.server_verify State.client_cert
  server_verified : Transition State.server_verify State.client_finished
  certificate_sent : Transition State.client_cert State.client_cert_verify
  no_certificate : Transition State.client_cert State.client_finished
  signature_sent : Transition State.client_cert_verify State.client_finished
  finished_sent : Transition State.client_finished State.application_data
  established : Transition State.application_data State.application_data

module _ ⦃h : Heapless⦄ where
  with_cert-Transition :
      (certificate : Certificate) (cert : Option CertificateEntry) (m : Certificate) (s : State)
      → with_cert certificate cert ≡ ok (m, s)
      → Transition State.client_cert s
  unfolding with_cert
  with_cert-Transition certificate none m s p =
      subst (Transition State.client_cert) (ap (λ x. x.1) (ok-injective p)) no_certificate
  with_cert-Transition certificate (some cert) m s p = go (add certificate cert) p
    where
      go : (r : Result TlsError Certificate) → added r ≡ ok (m, s) → Transition State.client_cert s
      go (ok _) q =
          subst (Transition State.client_cert) (ap (λ x. x.1) (ok-injective q)) certificate_sent
      go (err _) q = cc
      go panic q = cc
      go stuck q = cc

-- A step that returns a state leads to it.
abbrev pub Leads : State → Result TlsError State → Type 0
Leads s (ok s') = Transition s s'
Leads s _ = Unit

module _ (c : Suite) (e : Ecdh) where
  Confirmed-Transition :
      (o : Option (List ℕ)) (log : List ServerRecord) (next : State) (hs : Handshake c e)
      → Confirmed c e o log next hs
      → Transition State.server_verify next
  Confirmed-Transition o log State.server_verify hs i = more_to_verify
  Confirmed-Transition o log State.client_cert hs i = certificate_requested
  Confirmed-Transition o log State.client_finished hs i = server_verified
  Confirmed-Transition o log _ hs i = absurd i

module _ ⦃h : Heapless⦄ (c : Suite) (e : Ecdh) (tr : Transport) (pr : Provider c e) where
  -- a result that was handled is the result of the step
  pub handled-returned :
      (m : Processing c e tr pr State) (w w' : Peer c e tr pr) (s : State)
      → handled c e tr pr m w ≡ (ok s, w')
      → (m w).0 ≡ ok s
  unfolding handled handle_processing_error
  handled-returned m w w' s p =
      let (_, w2, _, q) = bind-returned (alert_error c e tr pr (m w).0) (λ _. outcome (m w).0) p in
      ap (λ o. o.0) q

  send_client_hello-next :
      (config : TlsConfig) (w w' : Peer c e tr pr) (s : State) (tx : List ℕ)
      → send_client_hello c e tr pr config w ≡ (ok (s, tx), w')
      → s ≡ State.server_hello
  unfolding send_client_hello pure
  send_client_hello-next config w w' s tx p =
      let (_, _, _, p1) = bind-returned _ _ p in
      let (_, _, _, p2) = bind-returned _ _ p1 in
      let (_, _, _, p3) = bind-returned _ _ p2 in
      let (_, _, _, p4) = bind-returned _ _ p3 in ap (λ x. x.0) (sym (returned-injective p4))

  -- a step that sends and then goes on to the state that it had found
  sent :
      {s : State} {w w' : Peer c e tr pr} (m : Processing c e tr pr (State × List ℕ))
      → (m >>= λ x. respond c e tr pr x.1 >> pure x.0) w ≡ (ok s, w')
      → (tx : List ℕ) × (v : Peer c e tr pr) × (m w ≡ (ok (s, tx), v))
  unfolding pure
  sent {s} m p =
      let ((s', tx), v, q, p1) = bind-returned _ _ p in
      let (_, _, _, p2) = bind-returned (respond c e tr pr tx) _ p1 in
      let same = returned-injective p2 in (tx, v, q ∙ ap (λ t. (ok (t, tx), v)) same)

  send_client_cert-Transition :
      (w w' : Peer c e tr pr) (s : State) (tx : List ℕ)
      → send_client_cert c e tr pr w ≡ (ok (s, tx), w')
      → Transition State.client_cert s
  unfolding send_client_cert pure
  send_client_cert-Transition w w' s tx p =
      let (_, _, _, p1) = bind-returned _ _ p in
      let (_, _, _, p2) = bind-returned _ _ p1 in
      let (_, _, _, p3) = bind-returned _ _ p2 in
      let (cert, _, _, p4) = bind-returned _ _ p3 in
      let ((m, s'), _, q, p5) = bind-returned _ _ p4 in
      let (_, _, _, p6) = bind-returned _ _ p5 in
      subst (Transition State.client_cert) (ap (λ x. x.0) (returned-injective p6))
        (with_cert-Transition _ cert m s' (ap (λ o. o.0) q))

  verify_record-next :
      (r : Result TlsError ((List ℕ → List ℕ) × SignatureScheme)) (w w' : Peer c e tr pr)
      (s : State) (out : ClientRecord e)
      → verify_record c e tr pr r w ≡ (ok (ok s, out), w')
      → s ≡ State.client_finished
  unfolding verify_record pure
  verify_record-next (ok (sign, scheme)) w w' s out p =
      let (_, _, _, p1) = bind-returned _ _ p in
      let (_, _, _, p2) = bind-returned _ _ p1 in
      let (_, _, _, p3) = bind-returned _ _ p2 in
      ok-injective (ap (λ x. x.0) (sym (returned-injective p3)))
  verify_record-next (err e) w w' s out p =
      absurd (err_not_ok (ap (λ x. x.0) (returned-injective p)))
  verify_record-next panic w w' s out p = cc
  verify_record-next stuck w w' s out p = cc

  send_client_cert_verify-next :
      (w w' : Peer c e tr pr) (s : State) (tx : List ℕ)
      → send_client_cert_verify c e tr pr w ≡ (ok (ok s, tx), w')
      → s ≡ State.client_finished
  unfolding send_client_cert_verify pure
  send_client_cert_verify-next w w' s tx p =
      let (signer, _, _, p1) = bind-returned _ _ p in
      let ((result, r), v, q, p2) = bind-returned _ _ p1 in
      let (_, _, _, p3) = bind-returned _ _ p2 in
      verify_record-next signer _ v s r
        (q ∙ ap (λ t. (ok (t, r), v)) (ap (λ x. x.0) (returned-injective p3)))

  handshake_keys_returned :
      (m : Exec (Handshake c e × KeySchedule c) TlsError State) (w : Peer c e tr pr) (s : State)
      → (on_handshake_keys c e tr pr m w).0 ≡ ok s
      → m (w.handshake, w.key_schedule) ≡ (ok s, (m (w.handshake, w.key_schedule)).1)
  unfolding on_handshake_keys
  handshake_keys_returned m w s p = ap (λ r. (r, (m (w.handshake, w.key_schedule)).1)) p

  -- what `process_server_verify` gave, where the step returned
  pub verification_returned :
      (m : Exec (Handshake c e × (KeySchedule c × pr.verifier.State)) TlsError State)
      (w w' : Peer c e tr pr) (s : State)
      → handled c e tr pr (on_verification c e tr pr m) w ≡ (ok s, w')
      → (m (w.handshake, (w.key_schedule, w.provider))).0 ≡ ok s
  unfolding on_verification
  verification_returned m w w' s p = handled-returned (on_verification c e tr pr m) w w' s p

  pub process-Transition :
      (config : TlsConfig) (w w' : Peer c e tr pr) (s s' : State)
      → process c e tr pr config s w ≡ (ok s', w')
      → Transition s s'
  unfolding process pure
  process-Transition config w w' State.client_hello s' p =
      let (tx, v, q) = sent _ p in
      subst (Transition State.client_hello) (sym (send_client_hello-next config w v s' tx q))
        hello_sent
  process-Transition config w w' State.server_hello s' p =
      let (r, v, _, p1) = bind-returned _ _ p in
      subst (Transition State.server_hello)
        (sym (
          process_server_hello-next c e r (v.handshake, v.key_schedule) _ s'
            (handshake_keys_returned (process_server_hello c e r) v s'
              (handled-returned _ v w' s' p1))))
        hello_received
  process-Transition config w w' State.server_verify s' p =
      let (r, v, _, p1) = bind-returned _ _ p in
      Confirmed-Transition c e _ _ s' _ (
        process_server_verify-Confirmed c e pr.verifier r v.handshake v.key_schedule v.provider s'
          (verification_returned (process_server_verify c e pr.verifier r) v w' s' p1))
  process-Transition config w w' State.client_cert s' p =
      let (tx, v, q) = sent _ p in send_client_cert-Transition w v s' tx q
  process-Transition config w w' State.client_cert_verify s' p =
      let ((result, tx), v, q, p1) = bind-returned _ _ p in
      let (_, _, _, p2) = bind-returned (respond c e tr pr tx) _ p1 in
      subst (Transition State.client_cert_verify)
        (sym (
          send_client_cert_verify-next w v s' tx
            (q ∙ ap (λ t. (ok (t, tx), v)) (ap (λ o. o.0) p2))))
        signature_sent
  process-Transition config w w' State.client_finished s' p =
      let (tx, v, _, p1) = bind-returned _ _ p in
      let (_, v2, _, p2) = bind-returned (respond c e tr pr tx) _ p1 in
      subst (Transition State.client_finished)
        (sym (
          client_finished_finalize-next c e (v2.handshake, v2.key_schedule) _ s'
            (handshake_keys_returned (client_finished_finalize c e) v2 s' (ap (λ o. o.0) p2))))
        finished_sent
  process-Transition config w w' State.application_data s' p =
      subst (Transition State.application_data) (returned-injective p) established

  -- Where a step of `process` returns a state, it is one of those that may follow:
  -- `ServerHello` behind `ClientHello`, `ServerVerify` behind `ServerHello`, `ServerVerify`
  -- again, `ClientCert` or `ClientFinished` behind `ServerVerify`, `ClientCertVerify` or
  -- `ClientFinished` behind `ClientCert`, `ClientFinished` behind `ClientCertVerify`, and
  -- `ApplicationData` behind `ClientFinished` and behind itself.
  pub process-Leads :
      (config : TlsConfig) (w : Peer c e tr pr) (s : State)
      → Leads s (process c e tr pr config s w).0
  process-Leads config w s =
      go (process c e tr pr config s w).0 (process c e tr pr config s w).1 refl
    where
      go :
          (r : Result TlsError State) (w' : Peer c e tr pr)
          → process c e tr pr config s w ≡ (r, w')
          → Leads s r
      go (ok s') w' p = process-Transition config w w' s s' p
      go (err _) w' p = tt
      go panic w' p = tt
      go stuck w' p = tt
