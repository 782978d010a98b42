-- ===== src/Connection/Steps/Authentic.antt =====
-- How `process_server_verify` leaves the state `ServerVerify`.
use embedded_tls.Prelude.{
  ℕ, ◌≡◌, refl, sym, subst, Bool, true, false, Bool-cases, inl, inr, List, ◌∷◌, Option, none, some,
  if◌then◌else◌,
}
use mathlib.Core.List.{Memᴰ}
use embedded_tls.Exec.{
  Result, ok, err, panic, stuck, Exec, pure, raise, gets, outcome, continue, on_left, on_right,
  ◌>>=◌,
}
use embedded_tls.Error.{TlsError, invalid_signature, invalid_handshake, invalid_record}
use embedded_tls.Heapless.{Heapless}
use embedded_tls.Suite.{Suite}
use embedded_tls.Ecdh.{Ecdh}
use embedded_tls.Verifier.{Verifier}
use embedded_tls.KeySchedule.Secrets.{KeySchedule, ReadKeySchedule}
use embedded_tls.KeySchedule.Secrets.Verified.{
  finished_key, verified, verified-true, verify_server_finished_lem,
}
use embedded_tls.Handshake.CertificateRequest.{CertificateRequest, keep_request}
use embedded_tls.Handshake.Finished.{Finished}
use embedded_tls.Handshake.Server.{
  ServerHandshake, encrypted_extensions, certificate, certificate_verify, certificate_request,
  finished,
}
use embedded_tls.ServerRecord.{ServerRecord, handshake, change_cipher_spec}
use embedded_tls.Connection.{decrypt_record}
use embedded_tls.Connection.Handing.{handed, decrypt_record-handed}
use embedded_tls.Connection.State.{State, Handshake}
use embedded_tls.Connection.Steps.{
  Held, with_verifier, set_request, set_next, keep_transcript, next_state, verify_message,
  verify_record, process_server_verify,
}

abbrev pub IsSome : {A : Type 0} → Option A → Type 0
IsSome none = ⊥
IsSome (some a) = Unit

module _ (c : Suite) (e : Ecdh) where
  -- Among the records is a Finished message with the HMAC of the hash that it carries, under the key that
  -- belongs to the traffic secret.
  pub record Authentic (traffic_secret : Option (List ℕ)) (log : List ServerRecord) : Type 0 where
    pub ts : List ℕ
    pub message : List ℕ
    pub f : Finished
    pub given : Memᴰ (handshake (finished f)) log
    pub secret : traffic_secret ≡ some ts
    pub hash : f.hash ≡ some message
    pub verify : f.verify ≡ c.hkdf.tag (finished_key c ts) message

  -- What holds in the state that comes next: it is `ServerVerify`, or the server is authentic and what the
  -- next step takes is there.
  abbrev pub Confirmed : Option (List ℕ) → List ServerRecord → State → Handshake c e → Type 0
  Confirmed o log State.server_verify hs = Unit
  Confirmed o log State.client_cert hs = Authentic o log × IsSome hs.certificate_request
  Confirmed o log State.client_finished hs = Authentic o log × IsSome hs.traffic_hash
  Confirmed o log _ hs = ⊥

  more_records :
      (r : ServerRecord) {o : Option (List ℕ)} {log : List ServerRecord}
      → Authentic o log
      → Authentic o (r ∷ log)
  more_records r a = record {
    ts = a.ts;
    message = a.message;
    f = a.f;
    given = Memᴰ.tail a.given;
    secret = a.secret;
    hash = a.hash;
    verify = a.verify;
  }

  Confirmed-more :
      (r : ServerRecord) (o : Option (List ℕ)) (log : List ServerRecord) (next : State)
      (hs : Handshake c e)
      → Confirmed o log next hs
      → Confirmed o (r ∷ log) next hs
  Confirmed-more r o log State.server_verify hs i = tt
  Confirmed-more r o log State.client_cert hs i = (more_records r i.0, i.1)
  Confirmed-more r o log State.client_finished hs i = (more_records r i.0, i.1)
  Confirmed-more r o log _ hs i = absurd i

  Confirmed-set_request :
      (q : CertificateRequest) (o : Option (List ℕ)) (log : List ServerRecord) (next : State)
      (hs : Handshake c e)
      → Confirmed o log next hs
      → Confirmed o log next (record hs { certificate_request = some q })
  Confirmed-set_request q o log State.server_verify hs i = tt
  Confirmed-set_request q o log State.client_cert hs i = (i.0, tt)
  Confirmed-set_request q o log State.client_finished hs i = i
  Confirmed-set_request q o log _ hs i = absurd i

module _ ⦃h : Heapless⦄ (c : Suite) (e : Ecdh) (v : Verifier c.digest.State) where
  -- what is kept by the callback
  abbrev pub Kept : List ServerRecord → ReadKeySchedule c → Held c e v → Type 0
  Kept log k (hs, (next, x)) = Confirmed c e k.state.traffic_secret log next hs

  abbrev Keeps : Exec (ReadKeySchedule c × Held c e v) TlsError (Unit {0}) → ServerRecord → Type 0
  Keeps m r =
      (log : List ServerRecord) (k : ReadKeySchedule c) (x : Held c e v)
      → Kept log k x
      → Kept (r ∷ log) (m (k, x)).1.0 (m (k, x)).1.1

  Keeps-with_verifier :
      (m : Exec v.State TlsError (Unit {0})) (r : ServerRecord) → Keeps (with_verifier c e v m) r
  unfolding with_verifier gets on_right ◌>>=◌ pure
  Keeps-with_verifier m r log k (hs, (next, x)) i = elim (Bool-cases (v.has_verifier x)) [
    | inl p ↦ rw p (Confirmed-more c e r k.state.traffic_secret log next hs i)
    | inr p ↦ rw p (Confirmed-more c e r k.state.traffic_secret log next hs i)
  ]

  Keeps-request :
      (q : CertificateRequest) (r : ServerRecord)
      → Keeps (outcome (keep_request q) >>= λ kept. set_request c e v kept) r
  unfolding ◌>>=◌ set_request
  Keeps-request q r log k (hs, (next, x)) i = go (keep_request q)
    where
      go :
          (res : Result TlsError CertificateRequest)
          → let out = continue res (λ kept. set_request c e v kept) (k, (hs, (next, x))) in
            Kept (r ∷ log) out.1.0 out.1.1
      go (ok kept) =
          Confirmed-set_request c e kept k.state.traffic_secret (r ∷ log) next hs
            (Confirmed-more c e r k.state.traffic_secret log next hs i)
      go (err _) = Confirmed-more c e r k.state.traffic_secret log next hs i
      go panic = Confirmed-more c e r k.state.traffic_secret log next hs i
      go stuck = Confirmed-more c e r k.state.traffic_secret log next hs i

  Keeps-finished :
      (f : Finished) → Keeps (verify_message c e v (finished f)) (handshake (finished f))
  unfolding verify_message set_next keep_transcript on_left gets raise ◌>>=◌
  Keeps-finished f log k (hs, (next, x)) i =
      rw (verify_server_finished_lem c k f)
        (go (verified c k.state.traffic_secret f.hash f.verify) refl)
    where
      r : ServerRecord
      r = handshake (finished f)

      same : Kept (r ∷ log) k (hs, (next, x))
      same = Confirmed-more c e r k.state.traffic_secret log next hs i

      authentic :
          verified c k.state.traffic_secret f.hash f.verify ≡ ok true
          → Authentic c e k.state.traffic_secret (r ∷ log)
      authentic p =
          let (ts, (message, (a, (b, d)))) =
            verified-true c k.state.traffic_secret f.hash f.verify p in
          record {
            ts = ts;
            message = message;
            f = f;
            given = Memᴰ.head refl;
            secret = a;
            hash = b;
            verify = d;
          }

      accepted :
          Authentic c e k.state.traffic_secret (r ∷ log)
          → (q : Option CertificateRequest) → hs.certificate_request ≡ q
          → let out = next_state c e v q (k, (hs, (next, x))) in Kept (r ∷ log) out.1.0 out.1.1
      accepted a none p = (a, tt)
      accepted a (some q) p = (a, rw p tt)

      go :
          (res : Result TlsError Bool)
          → verified c k.state.traffic_secret f.hash f.verify ≡ res
          → let out =
              continue res
                (λ b. gets (λ s. s.1.0.certificate_request) >>= λ q.
                  if b then next_state c e v q else raise invalid_signature)
                (k, (hs, (next, x))) in
            Kept (r ∷ log) out.1.0 out.1.1
      go (ok true) p = accepted (authentic p) hs.certificate_request refl
      go (ok false) p = same
      go (err _) p = same
      go panic p = same
      go stuck p = same

  Keeps-same : (r : ServerRecord) (res : Result TlsError (Unit {0})) → Keeps (outcome res) r
  Keeps-same r res log k (hs, (next, x)) i =
      Confirmed-more c e r k.state.traffic_secret log next hs i

  Keeps-verify_message : (m : ServerHandshake) → Keeps (verify_message c e v m) (handshake m)
  unfolding verify_message pure raise gets ◌>>=◌
  Keeps-verify_message encrypted_extensions = Keeps-same _ (ok tt)
  Keeps-verify_message (certificate m) =
      λ log k x i. Keeps-with_verifier (v.verify_certificate k.transcript_hash m) _ log k x i
  Keeps-verify_message (certificate_verify m) = Keeps-with_verifier (v.verify_signature m) _
  Keeps-verify_message (certificate_request m) = Keeps-request m _
  Keeps-verify_message (finished f) = Keeps-finished f
  Keeps-verify_message _ = Keeps-same _ (err invalid_handshake)

  Keeps-verify_record : (r : ServerRecord) → Keeps (verify_record c e v r) r
  unfolding verify_record pure raise
  Keeps-verify_record (handshake m) = Keeps-verify_message m
  Keeps-verify_record change_cipher_spec = Keeps-same _ (ok tt)
  Keeps-verify_record _ = Keeps-same _ (err invalid_record)

  Kept-next_keys :
      (log : List ServerRecord) (k k' : ReadKeySchedule c) (x : Held c e v)
      → k'.state.traffic_secret ≡ k.state.traffic_secret
      → Kept log k x
      → Kept log k' x
  Kept-next_keys log k k' (hs, (next, x)) p i = subst (λ o. Confirmed c e o log next hs) (sym p) i

  -- Where `process_server_verify` returns a state, it is `ServerVerify`, or `ClientCert` or
  -- `ClientFinished`; no other. In the last two, one of the records that `decrypt_record`
  -- handed to the callback is a Finished message whose verify data are the HMAC of the hash
  -- that it carries under the finished key of the traffic secret of the server; `ClientCert`
  -- comes with a certificate request and `ClientFinished` with a transcript hash, which the
  -- next steps take. This holds for any record, any messages that it carries and any verifier.
  pub process_server_verify-Confirmed :
      (r : ServerRecord) (hs : Handshake c e) (ks : KeySchedule c) (x : v.State) (next : State)
      → let out = process_server_verify c e v r (hs, (ks, x)) in
        out.0 ≡ ok next
        → Confirmed c e out.1.1.0.server_state.state.traffic_secret
            (handed c (verify_record c e v) r (ks.server_state, (hs, (State.server_verify, x))))
            next
            out.1.0
  unfolding process_server_verify gets ◌>>=◌
  process_server_verify-Confirmed r hs ks x next =
      let start : ReadKeySchedule c × Held c e v =
        (ks.server_state, (hs, (State.server_verify, x))) in
      let out = decrypt_record c (verify_record c e v) r start in
      go out.0 out.1 (
        decrypt_record-handed c (verify_record c e v) Kept Kept-next_keys Keeps-verify_record r
          start.0 start.1 tt)
    where
      log : List ServerRecord
      log = handed c (verify_record c e v) r (ks.server_state, (hs, (State.server_verify, x)))

      go :
          (res : Result TlsError (Unit {0})) (s : ReadKeySchedule c × Held c e v)
          → Kept log s.0 s.1
          → (continue res (λ _. gets (λ t. t.1.1.0)) s).0 ≡ ok next
          → let end = (continue res (λ _. gets (λ t. t.1.1.0)) s).1 in
            Confirmed c e end.0.state.traffic_secret log next end.1.0
      go (ok _) s i p =
          let q : s.1.1.0 ≡ next = cc in
          subst (λ n. Confirmed c e s.0.state.traffic_secret log n s.1.0) q i
      go (err _) s i p = cc
      go panic s i p = cc
      go stuck s i p = cc

  -- A Finished message with the right verify data ends the state where no certificate was asked for.
  pub process_server_verify-finished :
      (f : Finished) (hs : Handshake c e) (ks : KeySchedule c) (x : v.State)
      → verified c ks.server_state.state.traffic_secret f.hash f.verify ≡ ok true
      → hs.certificate_request ≡ none
      → (process_server_verify c e v (handshake (finished f)) (hs, (ks, x))).0
        ≡ ok State.client_finished
  unfolding process_server_verify decrypt_record verify_record verify_message set_next
      keep_transcript on_left gets ◌>>=◌
  process_server_verify-finished f hs ks x p q =
      rw (verify_server_finished_lem c ks.server_state f, p, q) refl
