-- ===== src/KeySchedule/Secrets.antt =====
-- src/key_schedule.rs: the secrets. `Secret` is an option: `Uninitialized` is `none`, and an initialized
-- one holds the pseudorandom key of its `Hkdf`.
pub mod Expand
pub mod Refine
pub mod Verified
use embedded_tls.Prelude.{
  ℕ, ◌+◌, ◌%◌, List, [], ◌∷◌, ◌++◌, Option, none, some, Bool, length, replicate, ltb, if◌then◌else◌,
}
use embedded_tls.Prelude.Words.{as_u8, be16}
use embedded_tls.Exec.{Result, ok, err, panic, Exec, pure, raise, gets, ◌>>=◌, ◌>>◌}
use embedded_tls.Error.{TlsError, internal_error, crypto_error}
use embedded_tls.Heapless.{Heapless}
use embedded_tls.Suite.{Suite}
use embedded_tls.KeySchedule.{KeyScheduleState, iv_len}
use embedded_tls.KeySchedule.Labels.{
  tls13, ext_binder, derived, c_hs_traffic, s_hs_traffic, c_ap_traffic, s_ap_traffic, key, iv,
  finished,
}
use embedded_tls.Handshake.Finished.{Finished}

pub data ContextType : Type 0 where
  no_context : ContextType
  hash : List ℕ → ContextType

pub record SharedState : Type 0 where
  pub secret : List ℕ
  pub hkdf : Option (List ℕ)

pub record WriteKeySchedule : Type 0 where
  pub state : KeyScheduleState
  pub binder_key : Option (List ℕ)

module _ {S E A : Type 0} where
  -- `ok_or` and `map_err` of a call that gives nothing but its failure
  pub require : E → Option A → Exec S E A
  require e none = raise e
  require e (some a) = pure a

pub record ReadKeySchedule (c : Suite) : Type 0 where
  pub state : KeyScheduleState
  pub transcript_hash : c.digest.State

pub record KeySchedule (c : Suite) : Type 0 where
  pub shared : SharedState
  pub client_state : WriteKeySchedule
  pub server_state : ReadKeySchedule c

module _ (c : Suite) where
  abbrev pub hash_len : ℕ
  hash_len = c.digest.output_size

  abbrev pub zero_hash : List ℕ
  zero_hash = replicate hash_len 0

  abbrev pub psk_or_zero : Option (List ℕ) → List ℕ
  psk_or_zero none = zero_hash
  psk_or_zero (some psk) = psk

  -- the finalized hash of a transcript, and of nothing
  abbrev pub transcript : c.digest.State → ContextType
  transcript t = hash (c.digest.finalize t)

  abbrev pub empty_hash : ContextType
  empty_hash = hash (c.digest.finalize (c.digest.update c.digest.new []))

  abbrev pub fresh_state : KeyScheduleState
  fresh_state = record {
    traffic_secret = none;
    counter = 0;
    key = replicate c.key_len 0;
    iv = replicate iv_len 0;
  }

  -- `KeySchedule::new`
  pub new : KeySchedule c
  new = record {
    shared = record { secret = zero_hash; hkdf = none };
    client_state = record { state = fresh_state; binder_key = none };
    server_state = record { state = fresh_state; transcript_hash = c.digest.new };
  }

module _ ⦃h : Heapless⦄ (c : Suite) where
  -- The buffer is a vector with room for the hash and 22 bytes, the `LabelBuffer` of src/config.rs.
  extend_label : {S : Type 0} → List ℕ → List ℕ → Exec S TlsError (List ℕ)
  extend_label so_far bytes = require internal_error (h.extend ℕ (hash_len c + 22) so_far bytes)

  -- `6 + label.len() as u8`
  label_length : {S : Type 0} → List ℕ → Exec S TlsError ℕ
  label_length label s =
      let n = 6 + as_u8 (length label) in if ltb n 256 then (ok n, s) else (panic, s)

  push_context : {S : Type 0} → List ℕ → ContextType → Exec S TlsError (List ℕ)
  push_context so_far no_context = require internal_error (h.push ℕ (hash_len c + 22) so_far 0)
  push_context so_far (hash context) = do
    l ← extend_label so_far (as_u8 (length context) ∷ [])
    extend_label l context

  -- the label of an output of `n` bytes
  pub hkdf_label : {S : Type 0} → ℕ → List ℕ → ContextType → Exec S TlsError (List ℕ)
  hkdf_label n label context_type = do
    a ← extend_label [] (be16 n)
    label_len ← label_length label
    b ← extend_label a (label_len ∷ [])
    d ← extend_label b tls13
    e ← extend_label d label
    push_context e context_type

  -- `make_expanded_hkdf_label` of a `Secret`
  pub make_expanded_hkdf_label :
      {S : Type 0} → Option (List ℕ) → ℕ → List ℕ → ContextType → Exec S TlsError (List ℕ)
  make_expanded_hkdf_label secret n label context_type = do
    info ← hkdf_label n label context_type
    prk ← require internal_error secret
    require crypto_error (c.hkdf.expand prk info n)

  pub initialize : List ℕ → Exec SharedState TlsError (Unit {0})
  initialize ikm s =
      let prk = c.hkdf.extract s.secret ikm in (ok tt, record { secret = prk; hkdf = some prk })

  pub derive_secret : {S : Type 0} → SharedState → List ℕ → ContextType → Exec S TlsError (List ℕ)
  derive_secret s label context_type =
      make_expanded_hkdf_label s.hkdf (hash_len c) label context_type

  set_secret : List ℕ → Exec SharedState TlsError (Unit {0})
  set_secret secret s = (ok tt, record s { secret = secret })

  pub derive_next : Exec SharedState TlsError (Unit {0})
  derive_next s = (derive_secret s derived (empty_hash c) >>= set_secret) s

  set_traffic_secret : List ℕ → Exec KeyScheduleState TlsError (Unit {0})
  set_traffic_secret prk s = (ok tt, record s { traffic_secret = some prk })

  set_key : List ℕ → Exec KeyScheduleState TlsError (Unit {0})
  set_key k s = (ok tt, record s { key = k })

  set_iv : List ℕ → Exec KeyScheduleState TlsError (Unit {0})
  set_iv k s = (ok tt, record s { iv = k; counter = 0 })

  -- of the key schedule of one direction
  pub calculate_traffic_secret :
      List ℕ → SharedState → c.digest.State → Exec KeyScheduleState TlsError (Unit {0})
  calculate_traffic_secret label shared transcript_hash = do
    secret ← derive_secret shared label (transcript c transcript_hash)
    prk ← require internal_error (c.hkdf.from_prk secret)
    set_traffic_secret prk
    traffic_secret ← gets (λ s. s.traffic_secret)
    k ← make_expanded_hkdf_label traffic_secret c.key_len key no_context
    set_key k
    v ← make_expanded_hkdf_label traffic_secret iv_len iv no_context
    set_iv v

  abbrev pub Keys : Type 0 → Type 0
  Keys = Exec (KeySchedule c) TlsError

  pub on_shared : {A : Type 0} → Exec SharedState TlsError A → Keys A
  on_shared m s = let (r, t) = m s.shared in (r, record s { shared = t })

  unfoldable pub on_client : {A : Type 0} → Exec KeyScheduleState TlsError A → Keys A
  on_client m s =
      let (r, t) = m s.client_state.state in
      (r, record s { client_state = record s.client_state { state = t } })

  pub on_server : {A : Type 0} → Exec KeyScheduleState TlsError A → Keys A
  on_server m s =
      let (r, t) = m s.server_state.state in
      (r, record s { server_state = record s.server_state { state = t } })

  pub calculate_traffic_secrets : List ℕ → List ℕ → Keys (Unit {0})
  calculate_traffic_secrets client_label server_label s =
      (on_client (calculate_traffic_secret client_label s.shared s.server_state.transcript_hash)
          >> on_server
              (calculate_traffic_secret server_label s.shared s.server_state.transcript_hash))
        s

  set_binder_key : List ℕ → Keys (Unit {0})
  set_binder_key prk s =
      (ok tt, record s { client_state = record s.client_state { binder_key = some prk } })

  pub initialize_early_secret : Option (List ℕ) → Keys (Unit {0})
  initialize_early_secret psk = do
    on_shared (initialize (psk_or_zero c psk))
    shared ← gets (λ s. s.shared)
    binder_key ← derive_secret shared ext_binder (empty_hash c)
    prk ← require internal_error (c.hkdf.from_prk binder_key)
    set_binder_key prk
    on_shared derive_next

  pub initialize_handshake_secret : List ℕ → Keys (Unit {0})
  initialize_handshake_secret ikm = do
    on_shared (initialize ikm)
    calculate_traffic_secrets c_hs_traffic s_hs_traffic
    on_shared derive_next

  pub initialize_master_secret : Keys (Unit {0})
  initialize_master_secret = do
    on_shared (initialize (zero_hash c))
    calculate_traffic_secrets c_ap_traffic s_ap_traffic
    on_shared derive_next

  unfoldable pub replace_transcript_hash : c.digest.State → Keys (Unit {0})
  replace_transcript_hash t s =
      (ok tt, record s { server_state = record s.server_state { transcript_hash = t } })

  -- The HMAC of the transcript under a key derived from the client's traffic secret.
  pub create_client_finished : Keys Finished
  create_client_finished = do
    traffic_secret ← gets (λ s. s.client_state.state.traffic_secret)
    k ← make_expanded_hkdf_label traffic_secret (hash_len c) finished no_context
    message ← gets (λ s. c.digest.finalize s.server_state.transcript_hash)
    verify ← require crypto_error (c.hkdf.mac k message)
    pure (record { verify = verify; hash = none })

  -- `PskBinder` is its verify data.
  pub create_psk_binder : c.digest.State → Exec WriteKeySchedule TlsError (List ℕ)
  create_psk_binder transcript_hash = do
    binder_key ← gets (λ s. s.binder_key)
    k ← make_expanded_hkdf_label binder_key (hash_len c) finished no_context
    require crypto_error (c.hkdf.mac k (c.digest.finalize transcript_hash))

  pub verify_server_finished : Finished → Exec (ReadKeySchedule c) TlsError Bool
  verify_server_finished f = do
    traffic_secret ← gets (λ s. s.state.traffic_secret)
    k ← make_expanded_hkdf_label traffic_secret (hash_len c) finished no_context
    message ← require internal_error f.hash
    require internal_error (c.hkdf.verify k message f.verify)
