-- ===== src/KeySchedule/Secrets/Refine.antt =====
-- The key schedule of RFC 8446, section 7.1, and `KeySchedule` as its implementation.
use embedded_tls.Prelude.{ℕ, ◌≤◌, ◌≡◌, refl, List, [], Option, some, arith, length}
use embedded_tls.Exec.{Result, ok, Exec, gets, then_ok, ◌>>◌}
use embedded_tls.Error.{TlsError, internal_error}
use embedded_tls.Heapless.{Heapless}
use embedded_tls.Suite.{Suite}
use embedded_tls.KeySchedule.{KeyScheduleState, iv_len}
use embedded_tls.KeySchedule.Labels.{
  ext_binder, derived, c_hs_traffic, s_hs_traffic, c_ap_traffic, s_ap_traffic, key, iv,
}
use embedded_tls.KeySchedule.Secrets.{
  ContextType, no_context, SharedState, KeySchedule, ReadKeySchedule, WriteKeySchedule, require,
  hash_len, zero_hash, transcript, empty_hash, new, initialize, derive_secret, derive_next,
  set_secret, set_traffic_secret, set_key, set_iv, calculate_traffic_secret, Keys, on_shared,
  on_client, on_server, calculate_traffic_secrets, set_binder_key, psk_or_zero,
  initialize_early_secret, initialize_handshake_secret, initialize_master_secret,
  replace_transcript_hash,
}
use embedded_tls.KeySchedule.Secrets.Expand.{
  expand_label, require-some, make_expanded_hkdf_label_lem,
}

module _ (c : Suite) where
  -- Derive-Secret of an output of one hash
  abbrev pub derive : List ℕ → List ℕ → ContextType → List ℕ
  derive prk label context = expand_label c prk (hash_len c) label context

  -- the keys of one direction
  abbrev pub traffic : List ℕ → List ℕ → c.digest.State → KeyScheduleState
  traffic prk label t =
      let ts = derive prk label (transcript c t) in
      record {
        traffic_secret = some ts;
        counter = 0;
        key = expand_label c ts c.key_len key no_context;
        iv = expand_label c ts iv_len iv no_context;
      }

  -- the salt of the next extraction
  abbrev pub next : List ℕ → List ℕ
  next prk = derive prk derived (empty_hash c)

  abbrev pub early_secret : Option (List ℕ) → List ℕ
  early_secret psk = c.hkdf.extract (zero_hash c) (psk_or_zero c psk)

  abbrev pub handshake_secret : Option (List ℕ) → List ℕ → List ℕ
  handshake_secret psk ecdhe = c.hkdf.extract (next (early_secret psk)) ecdhe

  abbrev pub master_secret : Option (List ℕ) → List ℕ → List ℕ
  master_secret psk ecdhe = c.hkdf.extract (next (handshake_secret psk ecdhe)) (zero_hash c)

module _ ⦃h : Heapless⦄ (c : Suite) where
  derive_secret_lem :
      {S : Type 0} (s : S) (salt prk label : List ℕ) (t : c.digest.State)
      → length label ≤ 12
      → derive_secret c (record { secret = salt; hkdf = some prk }) label (transcript c t) s
        ≡ (ok (derive c prk label (transcript c t)), s)
  unfolding derive_secret
  derive_secret_lem s salt prk label t short =
      make_expanded_hkdf_label_lem c s prk (hash_len c) label (transcript c t) short
        (c.digest.length-finalize t) (omega arith)

  from_prk_lem :
      {S : Type 0} (s : S) (prk label : List ℕ) (context : ContextType)
      → require {E = TlsError} internal_error (c.hkdf.from_prk (derive c prk label context)) s
        ≡ (ok (derive c prk label context), s)
  from_prk_lem s prk label context =
      require-some internal_error s
        (c.hkdf.from_prk_ok (derive c prk label context) (omega (arith, c.hkdf.length-okm)))

  -- Whatever state the direction was in, an initialized shared secret gives it the keys of its label and
  -- of the transcript.
  calculate_traffic_secret_lem :
      (salt prk label : List ℕ) (t : c.digest.State) (s : KeyScheduleState)
      → length label ≤ 12
      → calculate_traffic_secret c label (record { secret = salt; hkdf = some prk }) t s
        ≡ (ok tt, traffic c prk label t)
  unfolding calculate_traffic_secret set_traffic_secret set_key set_iv gets
  calculate_traffic_secret_lem salt prk label t s short =
      let ts = derive c prk label (transcript c t) in
      then_ok _ _ (derive_secret_lem s salt prk label t short) (
        then_ok _ _ (from_prk_lem s prk label (transcript c t)) (
          then_ok _ _ refl (
            then_ok _ _ refl (
              then_ok _ _
                (make_expanded_hkdf_label_lem c _ ts c.key_len key no_context (omega arith) tt
                  c.key_len_fits)
                (then_ok _ _ refl (
                  then_ok _ _
                    (make_expanded_hkdf_label_lem c _ ts iv_len iv no_context (omega arith) tt
                      c.iv_len_fits)
                    refl))))))

  on_shared_lem :
      {A : Type 0} (m : Exec SharedState TlsError A) (s : KeySchedule c) {r : Result TlsError A}
      {t : SharedState}
      → m s.shared ≡ (r, t)
      → on_shared c m s ≡ (r, record s { shared = t })
  unfolding on_shared
  on_shared_lem m s p = rw p

  on_client_lem :
      {A : Type 0} (m : Exec KeyScheduleState TlsError A) (s : KeySchedule c)
      {r : Result TlsError A} {t : KeyScheduleState}
      → m s.client_state.state ≡ (r, t)
      → on_client c m s ≡ (r, record s { client_state = record s.client_state { state = t } })
  unfolding on_client
  on_client_lem m s p = rw p

  on_server_lem :
      {A : Type 0} (m : Exec KeyScheduleState TlsError A) (s : KeySchedule c)
      {r : Result TlsError A} {t : KeyScheduleState}
      → m s.server_state.state ≡ (r, t)
      → on_server c m s ≡ (r, record s { server_state = record s.server_state { state = t } })
  unfolding on_server
  on_server_lem m s p = rw p

  derive_next_lem :
      (salt prk : List ℕ)
      → derive_next c (record { secret = salt; hkdf = some prk })
        ≡ (ok tt, record { secret = next c prk; hkdf = some prk })
  unfolding derive_next set_secret
  derive_next_lem salt prk =
      then_ok _ _
        (derive_secret_lem _ salt prk derived (c.digest.update c.digest.new []) (omega arith)) refl

  calculate_traffic_secrets_lem :
      (salt prk client_label server_label : List ℕ) (client : WriteKeySchedule)
      (server : ReadKeySchedule c)
      → length client_label ≤ 12
      → length server_label ≤ 12
      → calculate_traffic_secrets c client_label server_label (record {
        shared = record { secret = salt; hkdf = some prk };
        client_state = client;
        server_state = server;
      })
        ≡ (
          ok tt,
          record {
            shared = record { secret = salt; hkdf = some prk };
            client_state = record client {
              state = traffic c prk client_label server.transcript_hash;
            };
            server_state = record server {
              state = traffic c prk server_label server.transcript_hash;
            };
          },
        )
  unfolding calculate_traffic_secrets
  calculate_traffic_secrets_lem salt prk cl sl client server short short' =
      then_ok _ _
        (on_client_lem _ _
          (calculate_traffic_secret_lem salt prk cl server.transcript_hash client.state short))
        (on_server_lem _ _
          (calculate_traffic_secret_lem salt prk sl server.transcript_hash server.state short'))

  -- the key schedule with a secret extracted, and the keys of both directions
  abbrev pub extracted :
      List ℕ → List ℕ → List ℕ → WriteKeySchedule → ReadKeySchedule c → KeySchedule c
  extracted prk client_label server_label client server = record {
    shared = record { secret = next c prk; hkdf = some prk };
    client_state = record client { state = traffic c prk client_label server.transcript_hash };
    server_state = record server { state = traffic c prk server_label server.transcript_hash };
  }

  pub initialize_handshake_secret_lem :
      (s : KeySchedule c) (ikm : List ℕ)
      → initialize_handshake_secret c ikm s ≡ (
        ok tt,
        extracted
            (c.hkdf.extract s.shared.secret ikm)
            c_hs_traffic
            s_hs_traffic
            s.client_state
            s.server_state,
      )
  unfolding initialize_handshake_secret initialize
  initialize_handshake_secret_lem s ikm =
      let prk = c.hkdf.extract s.shared.secret ikm in
      then_ok _ _ (on_shared_lem _ s refl) (
        then_ok _ _
          (calculate_traffic_secrets_lem prk prk c_hs_traffic s_hs_traffic s.client_state
            s.server_state (omega arith) (omega arith))
          (on_shared_lem _ _ (derive_next_lem prk prk)))

  pub initialize_master_secret_lem :
      (s : KeySchedule c)
      → initialize_master_secret c s ≡ (
        ok tt,
        extracted
            (c.hkdf.extract s.shared.secret (zero_hash c))
            c_ap_traffic
            s_ap_traffic
            s.client_state
            s.server_state,
      )
  unfolding initialize_master_secret initialize
  initialize_master_secret_lem s =
      let prk = c.hkdf.extract s.shared.secret (zero_hash c) in
      then_ok _ _ (on_shared_lem _ s refl) (
        then_ok _ _
          (calculate_traffic_secrets_lem prk prk c_ap_traffic s_ap_traffic s.client_state
            s.server_state (omega arith) (omega arith))
          (on_shared_lem _ _ (derive_next_lem prk prk)))

  initialize_early_secret_lem :
      (s : KeySchedule c) (psk : Option (List ℕ))
      → let prk = c.hkdf.extract s.shared.secret (psk_or_zero c psk) in
        initialize_early_secret c psk s ≡ (
          ok tt,
          record s {
            shared = record { secret = next c prk; hkdf = some prk };
            client_state = record s.client_state {
              binder_key = some (derive c prk ext_binder (empty_hash c));
            };
          },
        )
  unfolding initialize_early_secret initialize set_binder_key gets
  initialize_early_secret_lem s psk =
      let prk = c.hkdf.extract s.shared.secret (psk_or_zero c psk) in
      let empty = c.digest.update c.digest.new [] in
      then_ok _ _ (on_shared_lem _ s refl) (
        then_ok _ _ refl (
          then_ok _ _ (derive_secret_lem _ prk prk ext_binder empty (omega arith)) (
            then_ok _ _ (from_prk_lem _ prk ext_binder (empty_hash c))
              (then_ok _ _ refl (on_shared_lem _ _ (derive_next_lem prk prk))))))

  -- the secrets of a handshake, in the order of the connection's calls
  abbrev pub key_schedule :
      Option (List ℕ) → c.digest.State → List ℕ → c.digest.State → Keys c (Unit {0})
  key_schedule psk server_hello ecdhe server_finished = do
    initialize_early_secret c psk
    replace_transcript_hash c server_hello
    initialize_handshake_secret c ecdhe
    replace_transcript_hash c server_finished
    initialize_master_secret c

  -- The calls that a connection makes on a new key schedule (the early secret of a pre-shared
  -- key or of none, the transcript up to the ServerHello, the handshake secret of the key
  -- exchange, the transcript up to the Finished of the server, the master secret) succeed and
  -- leave what the key schedule of RFC 8446, section 7.1, prescribes: the master secret is
  -- extracted from the secret derived of the handshake secret, that one from the secret
  -- derived of the early secret; the keys, IVs and traffic secrets of both directions are
  -- expanded from the master secret by their labels and the hash of the last transcript; both
  -- counters are 0; the binder key is that of the early secret.
  pub key_schedule_refines :
      (psk : Option (List ℕ)) (server_hello : c.digest.State) (ecdhe : List ℕ)
      (server_finished : c.digest.State)
      → key_schedule psk server_hello ecdhe server_finished (new c) ≡ (
        ok tt,
        record {
          shared = record {
            secret = next c (master_secret c psk ecdhe);
            hkdf = some (master_secret c psk ecdhe);
          };
          client_state = record {
            state = traffic c (master_secret c psk ecdhe) c_ap_traffic server_finished;
            binder_key = some (derive c (early_secret c psk) ext_binder (empty_hash c));
          };
          server_state = record {
            state = traffic c (master_secret c psk ecdhe) s_ap_traffic server_finished;
            transcript_hash = server_finished;
          };
        },
      )
  unfolding new replace_transcript_hash
  key_schedule_refines psk server_hello ecdhe server_finished =
      then_ok _ _ (initialize_early_secret_lem (new c) psk) (
        then_ok _ _ refl (
          then_ok _ _ (initialize_handshake_secret_lem _ ecdhe)
            (then_ok _ _ refl (initialize_master_secret_lem _))))
