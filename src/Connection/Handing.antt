-- ===== src/Connection/Handing.antt =====
-- Which records `decrypt_record` hands to its callback.
use embedded_tls.Prelude.{
  ℕ, arith, zero, suc, ◌≡◌, refl, ap, ap₂, Bool-cases, inl, inr, List, [], ◌∷◌, length, ltb,
}
use embedded_tls.Exec.{Exec}
use embedded_tls.Heapless.{Heapless}
use embedded_tls.Suite.{Suite}
use embedded_tls.Parse.{ParseBuffer}
use embedded_tls.Codec.ContentType.{ContentType}
use embedded_tls.Codec.Header.{RecordHeader}
use embedded_tls.Buffer.{CryptoBuffer}
use embedded_tls.KeySchedule.{KeyScheduleState, increment_counter}
use embedded_tls.KeySchedule.Secrets.{ReadKeySchedule}
use embedded_tls.ServerRecord.{ServerRecord, handshake, alert, application_data}
use embedded_tls.Simulation.{
  Both, Along, Beside, Along-outcome, Along-raise, Along-gets, Along-bind, Along-scoped,
  Along-with_local, Along-on_right, Along-on_left,
}
use embedded_tls.Connection.{
  Reading, while_left, next_message, each_message, pass_on, on_keys, decrypt_application_data,
  decrypt_record,
}

module _ (c : Suite) {H' H : Type 0} where
  -- A relation that holds on the same key schedule, and on any other with the same traffic secret.
  pub record Stable (R : ReadKeySchedule c × H' → ReadKeySchedule c × H → Type 0) : Type 0 where
    pub same_keys : (s' : ReadKeySchedule c × H') (s : ReadKeySchedule c × H) → R s' s → s'.0 ≡ s.0
    pub next_keys :
        (k : ReadKeySchedule c) (s' : ReadKeySchedule c × H') (s : ReadKeySchedule c × H)
        → k.state.traffic_secret ≡ s.0.state.traffic_secret
        → R s' s
        → R (k, s'.1) (k, s.1)

Along-while_left :
    {S' S : Type 0} {E : Type 0} {R : S' → S → Type 0} {m' : Exec S' E (Unit {0})}
    {m : Exec S E (Unit {0})} (n : ℕ)
    → Along R m' m
    → Along R (while_left m' n) (while_left m n)
Along-while_left n p = elim (Bool-cases (ltb 0 n)) [
  | inl q ↦ record { at = λ s' s h. rw q (p.at s' s h) }
  | inr q ↦ record { at = λ s' s h. rw q (refl, h) }
]

increment_counter-traffic_secret :
    (s : KeyScheduleState) → (increment_counter s).1.traffic_secret ≡ s.traffic_secret
unfolding increment_counter
increment_counter-traffic_secret s = ground arith

module _ ⦃h : Heapless⦄ (c : Suite) {H' H : Type 0}
    {R : ReadKeySchedule c × H' → ReadKeySchedule c × H → Type 0} (stable : Stable c R)
    (cb' : ServerRecord → Reading c H' (Unit {0})) (cb : ServerRecord → Reading c H (Unit {0}))
    (alike : (r : ServerRecord) → Along R (cb' r) (cb r)) where
  Along-next_message : Along (Beside R) (next_message c) (next_message c)
  unfolding next_message
  Along-next_message = record {
    at = λ s' s b. go s'.0 s.0 s'.1 s.1 b.0 (stable.same_keys s'.1 s.1 b.1) b.1;
  }
    where
      go :
          (p' p : ParseBuffer) (s' : ReadKeySchedule c × H') (s : ReadKeySchedule c × H)
          → p' ≡ p
          → s'.0 ≡ s.0
          → R s' s
          → Both (Beside R) (next_message c (p', s')) (next_message c (p, s))
      go p' p s' s e k r = rw (e, k) (refl, (refl, stable.next_keys _ s' s refl r))

  Along-each_message :
      (fuel : ℕ) → Along (Beside R) (each_message c cb' fuel) (each_message c cb fuel)
  unfolding each_message
  Along-each_message zero =
      Along-bind (Along-on_left R _) (λ n. Along-while_left n (record { at = λ s' s p. (refl, p) }))
  Along-each_message (suc fuel) = Along-bind (Along-on_left R _) (λ n. Along-while_left n (
      Along-bind Along-next_message
        (λ m. Along-bind (Along-on_right (alike (handshake m))) (λ _. Along-each_message fuel))))

  Along-pass_on :
      (header : RecordHeader) (t : ContentType) (b : CryptoBuffer)
      → Along R (pass_on c cb' header t b) (pass_on c cb header t b)
  unfolding pass_on
  Along-pass_on header ContentType.handshake b =
      Along-bind (Along-outcome _) (λ bytes. Along-with_local _ (Along-each_message (length bytes)))
  Along-pass_on header ContentType.application_data b = alike _
  Along-pass_on header ContentType.alert b =
      Along-bind (Along-outcome _) (λ bytes. Along-bind (Along-outcome _) (λ a. alike (alert a)))
  Along-pass_on header _ b = Along-raise _

  Along-increment : Along R (on_keys c increment_counter) (on_keys c increment_counter)
  unfolding on_keys
  Along-increment = record { at = λ s' s r. go s' s (stable.same_keys s' s r) r }
    where
      go :
          (s' : ReadKeySchedule c × H') (s : ReadKeySchedule c × H)
          → s'.0 ≡ s.0
          → R s' s
          → Both R (on_keys c increment_counter s') (on_keys c increment_counter s)
      go s' s k r =
          rw k (refl, stable.next_keys _ s' s (increment_counter-traffic_secret s.0.state) r)

  pub decrypt_record-Along :
      (r : ServerRecord) → Along R (decrypt_record c cb' r) (decrypt_record c cb r)
  unfolding decrypt_record decrypt_application_data
  decrypt_record-Along (application_data a) =
      Along-bind (Along-gets _ _ (λ s' s p. ap (λ k. k.state) (stable.same_keys s' s p))) (λ keys.
        Along-bind (Along-outcome _) (λ nonce.
          Along-bind (Along-scoped _ _)
            (λ x. Along-bind (Along-pass_on _ _ _) (λ _. Along-increment))))
  decrypt_record-Along r = alike r

module _ (c : Suite) {H : Type 0} (cb : ServerRecord → Reading c H (Unit {0})) where
  -- the callback, with the records that it was given, the last one first
  abbrev pub logged : ServerRecord → Reading c (List ServerRecord × H) (Unit {0})
  logged r (k, (log, x)) = let (res, (k', x')) = cb r (k, x) in (res, (k', (r ∷ log, x')))

module _ ⦃h : Heapless⦄ (c : Suite) {H : Type 0} (cb : ServerRecord → Reading c H (Unit {0})) where
  -- The records that `decrypt_record` hands to the callback.
  abbrev pub handed : ServerRecord → ReadKeySchedule c × H → List ServerRecord
  handed r (k, x) = (decrypt_record c (logged c cb) r (k, ([], x))).1.1.0

module _ ⦃h : Heapless⦄ (c : Suite) {H : Type 0} (cb : ServerRecord → Reading c H (Unit {0}))
    (I : List ServerRecord → ReadKeySchedule c → H → Type 0)
    (next_keys : (log : List ServerRecord) (k k' : ReadKeySchedule c) (x : H)
      → k'.state.traffic_secret ≡ k.state.traffic_secret
      → I log k x
      → I log k' x)
    (keeps : (r : ServerRecord) (log : List ServerRecord) (k : ReadKeySchedule c) (x : H)
      → I log k x
      → I (r ∷ log) (cb r (k, x)).1.0 (cb r (k, x)).1.1) where
  abbrev Follows : ReadKeySchedule c × (List ServerRecord × H) → ReadKeySchedule c × H → Type 0
  Follows s' s = (s'.0 ≡ s.0) × ((s'.1.1 ≡ s.1) × I s'.1.0 s.0 s.1)

  -- What the callback keeps, with what it was given, holds behind `decrypt_record`.
  pub decrypt_record-handed :
      (r : ServerRecord) (k : ReadKeySchedule c) (x : H)
      → I [] k x
      → let out = decrypt_record c cb r (k, x) in I (handed c cb r (k, x)) out.1.0 out.1.1
  decrypt_record-handed r k x i =
      let stable : Stable c Follows = record {
        same_keys = λ s' s p. p.0;
        next_keys = λ k s' s e p. (refl, (p.1.0, next_keys s'.1.0 s.0 k s.1 e p.1.1));
      } in
      let alike : (q : ServerRecord) → Along Follows (logged c cb q) (cb q) = λ q. record {
        at = λ s' s p.
            let e : (s'.0, s'.1.1) ≡ s = ap₂ (λ a b. (a, b)) p.0 p.1.0 in
            (
              ap (λ z. (cb q z).0) e,
              (ap (λ z. (cb q z).1.0) e, (ap (λ z. (cb q z).1.1) e, keeps q s'.1.0 s.0 s.1 p.1.1)),
            );
      } in
      let both =
        (decrypt_record-Along c stable (logged c cb) cb alike r).at (k, ([], x)) (k, x)
          (refl, (refl, i)) in
      both.1.1.1
