-- ===== src/KeySchedule/Secrets/Verified.antt =====
-- The two Finished messages of the key schedule.
use embedded_tls.Prelude.{
  ℕ, ◌≡◌, refl, sym, ap, ◌∙◌, ◌↔◌, List, Option, none, some, arith, Bool, true,
}
use embedded_tls.Exec.{Result, bind_err, ok, err, pure, raise, gets, then_ok}
use embedded_tls.Error.{TlsError, internal_error, crypto_error}
use embedded_tls.Heapless.{Heapless}
use embedded_tls.Suite.{Suite}
use embedded_tls.Handshake.Finished.{Finished}
use embedded_tls.KeySchedule.Labels.{finished}
use embedded_tls.KeySchedule.Secrets.{
  no_context, KeySchedule, make_expanded_hkdf_label, ReadKeySchedule, require, hash_len,
  create_client_finished, verify_server_finished,
}
use embedded_tls.KeySchedule.Secrets.Expand.{
  expand_label, require-none, make_expanded_hkdf_label-none, require-some,
  make_expanded_hkdf_label_lem,
}

module _ (c : Suite) where
  -- finished_key of RFC 8446, section 4.4.4
  abbrev pub finished_key : List ℕ → List ℕ
  finished_key ts = expand_label c ts (hash_len c) finished no_context

require_lem :
    {S E A : Type 0} (e : E) (o : Option A) (s : S)
    → require e o s ≡ (elim o [ none ↦ err e | some a ↦ ok a ], s)
unfolding require raise pure
require_lem e none s = refl
require_lem e (some a) s = refl

require-ok :
    {S E A : Type 0} (e : E) (o : Option A) (s : S) (a : A)
    → ((require e o s).0 ≡ ok a) ↔ (o ≡ some a)
unfolding require raise pure
require-ok e none s a = (λ p. cc, λ p. cc)
require-ok e (some a) s b = (λ p. cc, λ p. cc)

module _ ⦃h : Heapless⦄ (c : Suite) where
  expand_finished :
      {S : Type 0} (s : S) (ts : List ℕ) {o : Option (List ℕ)}
      → o ≡ some ts
      → make_expanded_hkdf_label c o (hash_len c) finished no_context s
        ≡ (ok (finished_key c ts), s)
  expand_finished s ts p = rw (
    p,
    make_expanded_hkdf_label_lem c s ts (hash_len c) finished no_context (omega arith) tt
        (omega arith),
  )

  no_secret :
      {S : Type 0} (s : S) {o : Option (List ℕ)}
      → o ≡ none
      → make_expanded_hkdf_label c o (hash_len c) finished no_context s ≡ (err internal_error, s)
  no_secret s p =
      rw (p, make_expanded_hkdf_label-none c s (hash_len c) finished no_context (omega arith) tt)

  -- Where the traffic secret of the client is known, `create_client_finished` succeeds and
  -- leaves the key schedule as it is: the verify data are the HMAC of the hash of the
  -- transcript under the finished key expanded from that traffic secret.
  pub create_client_finished_lem :
      (s : KeySchedule c) (ts : List ℕ)
      → s.client_state.state.traffic_secret ≡ some ts
      → create_client_finished c s ≡ (
        ok (record {
          verify =
              c.hkdf.tag (finished_key c ts) (c.digest.finalize s.server_state.transcript_hash);
          hash = none;
        }),
        s,
      )
  unfolding create_client_finished gets pure
  create_client_finished_lem s ts p = then_ok _ _ refl (
      then_ok _ _ (expand_finished s ts p)
        (then_ok _ _ refl (then_ok _ _ (require-some crypto_error s (c.hkdf.mac_ok _ _)) refl)))

  -- Where the traffic secret of the server is known and the Finished message carries a hash,
  -- `verify_server_finished` returns true exactly where the verify data are the HMAC of that
  -- hash under the finished key expanded from the traffic secret.
  pub verify_server_finished-Tagged :
      (s : ReadKeySchedule c) (f : Finished) (ts message : List ℕ)
      → s.state.traffic_secret ≡ some ts
      → f.hash ≡ some message
      → ((verify_server_finished c f s).0 ≡ ok true)
        ↔ (f.verify ≡ c.hkdf.tag (finished_key c ts) message)
  unfolding verify_server_finished gets
  verify_server_finished-Tagged s f ts message p q =
      let run : verify_server_finished c f s
          ≡ require internal_error (c.hkdf.verify (finished_key c ts) message f.verify) s =
        then_ok _ _ refl (
          then_ok _ _ (expand_finished s ts p)
            (then_ok _ _ (require-some internal_error s q) refl)) in
      let code = c.hkdf.verify_ok (finished_key c ts) message f.verify in
      let test =
        require-ok internal_error (c.hkdf.verify (finished_key c ts) message f.verify) s true in
      (
        λ e. code.0 (test.0 (sym (ap (λ x. x.0) run) ∙ e)),
        λ e. ap (λ x. x.0) run ∙ test.1 (code.1 e),
      )

  -- what `verify_server_finished` returns for a traffic secret, a hash and verify data
  abbrev pub verified : Option (List ℕ) → Option (List ℕ) → List ℕ → Result TlsError Bool
  verified none m code = err internal_error
  verified (some ts) none code = err internal_error
  verified (some ts) (some message) code = elim (c.hkdf.verify (finished_key c ts) message code) [
    | none ↦ err internal_error
    | some b ↦ ok b
  ]

  pub verify_server_finished_lem :
      (s : ReadKeySchedule c) (f : Finished)
      → verify_server_finished c f s ≡ (verified s.state.traffic_secret f.hash f.verify, s)
  unfolding verify_server_finished gets
  verify_server_finished_lem s f = go s.state.traffic_secret refl f.hash refl
    where
      go :
          (o : Option (List ℕ))
          → s.state.traffic_secret ≡ o
          → (m : Option (List ℕ)) → f.hash ≡ m
          → verify_server_finished c f s ≡ (verified o m f.verify, s)
      go none p m q = then_ok _ _ refl (bind_err _ _ (no_secret s p))
      go (some ts) p none q =
          then_ok _ _ refl
            (then_ok _ _ (expand_finished s ts p) (bind_err _ _ (require-none internal_error s q)))
      go (some ts) p (some m) q = then_ok _ _ refl (
          then_ok _ _ (expand_finished s ts p) (
            then_ok _ _ (require-some internal_error s q)
              (require_lem internal_error (c.hkdf.verify (finished_key c ts) m f.verify) s)))

  pub verified-true :
      (o m : Option (List ℕ)) (code : List ℕ)
      → verified o m code ≡ ok true
      → (ts : List ℕ) × ((message : List ℕ) × ((o ≡ some ts)
            × ((m ≡ some message) × (code ≡ c.hkdf.tag (finished_key c ts) message))))
  verified-true none m code p = cc
  verified-true (some ts) none code p = cc
  verified-true (some ts) (some message) code p = (
    ts,
    (
      message,
      (
        refl,
        (
          refl,
          (c.hkdf.verify_ok (finished_key c ts) message code).0
              (go (c.hkdf.verify (finished_key c ts) message code) p),
        ),
      ),
    ),
  )
    where
      go :
          (b : Option Bool)
          → ◌≡◌ {A = Result TlsError Bool}
              (elim b [ none ↦ err internal_error | some x ↦ ok x ])
              (ok true)
          → b ≡ some true
      go none q = cc
      go (some x) q = cc
