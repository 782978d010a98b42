-- ===== src/Connection/Steps/Keys.antt =====
-- The keys after `process_server_hello` and after `client_finished_finalize`.
use embedded_tls.Prelude.{◌≡◌, refl, List, ◌∷◌, ◌++◌, All, none, some}
use embedded_tls.Exec.{ok, Exec, pure, on_left, on_right, then_ok}
use embedded_tls.Error.{TlsError, invalid_handshake, invalid_key_share}
use embedded_tls.Heapless.{Heapless}
use embedded_tls.Suite.{Suite}
use embedded_tls.Ecdh.{Ecdh}
use embedded_tls.KeySchedule.Labels.{c_hs_traffic, s_hs_traffic, c_ap_traffic, s_ap_traffic}
use embedded_tls.KeySchedule.Secrets.{KeySchedule, zero_hash, replace_transcript_hash}
use embedded_tls.KeySchedule.Secrets.Expand.{require-some}
use embedded_tls.KeySchedule.Secrets.Refine.{
  extracted, initialize_handshake_secret_lem, initialize_master_secret_lem,
}
use embedded_tls.Handshake.ServerHello.{IsOther, server_key_share-first}
use embedded_tls.Extensions.ServerHello.{ServerHelloExtension, key_share}
use embedded_tls.Codec.KeyShare.{KeyShareServerHello}
use embedded_tls.Handshake.Server.{server_hello}
use embedded_tls.ServerRecord.{handshake}
use embedded_tls.Connection.State.{State, Handshake}
use embedded_tls.Connection.Steps.{
  calculate_shared_secret, take_secret, take_traffic_hash, process_server_hello,
  client_finished_finalize,
}

module _ ⦃h : Heapless⦄ (c : Suite) (e : Ecdh) where
  on_keys_ok :
      {A : Type 0} (m : Exec (KeySchedule c) TlsError A) (hs : Handshake c e) (ks : KeySchedule c)
      {a : A} {ks' : KeySchedule c}
      → m ks ≡ (ok a, ks')
      → on_right m (hs, ks) ≡ (ok a, (hs, ks'))
  unfolding on_right
  on_keys_ok m hs ks p = rw p

  on_handshake_ok :
      {A : Type 0} (m : Exec (Handshake c e) TlsError A) (hs : Handshake c e) (ks : KeySchedule c)
      {a : A} {hs' : Handshake c e}
      → m hs ≡ (ok a, hs')
      → on_left m (hs, ks) ≡ (ok a, (hs', ks))
  unfolding on_left
  on_handshake_ok m hs ks p = rw p

  calculate_shared_secret-first :
      (before behind : List ServerHelloExtension) (x : KeyShareServerHello)
      (secret : e.EphemeralSecret) (key : e.PublicKey)
      → All IsOther before
      → e.from_sec1_bytes x.share.opaque ≡ some key
      → calculate_shared_secret c e
          (record { extensions = before ++ (key_share x ∷ behind) })
          secret
        ≡ some (e.diffie_hellman secret key)
  unfolding calculate_shared_secret
  calculate_shared_secret-first before behind x secret key others decodes =
      rw (server_key_share-first before behind x others, decodes, calculate_shared_secret)

  -- In the state `ServerHello`, with an ephemeral secret kept and a ServerHello in which the
  -- first key share among any other extensions is a public key, `process_server_hello` gives
  -- the state `ServerVerify`: the ephemeral secret is used up, the handshake secret is
  -- extracted from what that secret and that public key share, and both directions have the
  -- keys of the handshake for the transcript.
  pub process_server_hello_lem :
      (before behind : List ServerHelloExtension) (x : KeyShareServerHello) (hs : Handshake c e)
      (ks : KeySchedule c) (secret : e.EphemeralSecret) (key : e.PublicKey)
      → hs.secret ≡ some secret
      → All IsOther before
      → e.from_sec1_bytes x.share.opaque ≡ some key
      → process_server_hello c e
          (handshake (server_hello (record { extensions = before ++ (key_share x ∷ behind) })))
          (hs, ks)
        ≡ (
          ok State.server_verify,
          (
            record hs { secret = none },
            extracted c
                (c.hkdf.extract ks.shared.secret (e.diffie_hellman secret key))
                c_hs_traffic
                s_hs_traffic
                ks.client_state
                ks.server_state,
          ),
        )
  unfolding process_server_hello take_secret pure
  process_server_hello_lem before behind x hs ks secret key p others decodes =
      then_ok _ _ (on_handshake_ok _ hs ks (require-some invalid_handshake _ p)) (
        then_ok _ _
          (require-some invalid_key_share _
            (calculate_shared_secret-first before behind x secret key others decodes))
          (then_ok _ _ (on_keys_ok _ _ ks (initialize_handshake_secret_lem c ks _)) refl))

  -- With a transcript hash kept, `client_finished_finalize` gives the state `ApplicationData`:
  -- that hash is used up and becomes the transcript, the master secret is extracted, and both
  -- directions have the keys of application data for it.
  pub client_finished_finalize_lem :
      (hs : Handshake c e) (ks : KeySchedule c) (t : c.digest.State)
      → hs.traffic_hash ≡ some t
      → client_finished_finalize c e (hs, ks) ≡ (
        ok State.application_data,
        (
          record hs { traffic_hash = none },
          extracted c
              (c.hkdf.extract ks.shared.secret (zero_hash c))
              c_ap_traffic
              s_ap_traffic
              ks.client_state
              (record ks.server_state { transcript_hash = t }),
        ),
      )
  unfolding client_finished_finalize take_traffic_hash replace_transcript_hash pure
  client_finished_finalize_lem hs ks t p =
      then_ok _ _ (on_handshake_ok _ hs ks (require-some invalid_handshake _ p)) (
        then_ok _ _ (on_keys_ok _ _ ks refl)
          (then_ok _ _ (on_keys_ok _ _ _ (initialize_master_secret_lem c _)) refl))
