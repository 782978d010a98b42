-- ===== src/Handshake/ClientHello.antt =====
-- src/handshake/client_hello.rs: `ClientHello`, its encoder, and how it enters the transcript; `TlsConfig` of
-- src/config.rs, which it is made from; `PskBinder` of src/handshake/binder.rs.
pub mod Transcript
use mathlib.Core.List.{flat_map}
use embedded_tls.Prelude.{
  ℕ, ◌+◌, ◌-◌, ◌*◌, Option, none, some, List, [], ◌∷◌, ◌++◌, ◌≡◌, refl, sym, ap, ◌∙◌, subst,
  append-nil, length, take, drop, leb, if◌then◌else◌,
}
use embedded_tls.Prelude.Words.{be16, as_u8}
use embedded_tls.Exec.{
  Result, ok, err, panic, Exec, pure, gets, map_err, for_each, sub, on_left, on_right, scoped,
  ◌>>=◌, ◌>>◌,
}
use embedded_tls.Error.{TlsError, encode_error}
use embedded_tls.Heapless.{Heapless}
use embedded_tls.Suite.{Suite}
use embedded_tls.Ecdh.{Ecdh}
use embedded_tls.Buffer.{
  CryptoBuffer, Write, push, push_u16, extend_from_slice, with_u16_length, wrap,
}
use embedded_tls.Buffer.Encodes.{
  Encodes, Encodes-push, Encodes-push_u16, Encodes-extend_from_slice, Encodes-bind, Encodes-map_err,
  Encodes-for_each,
}
use embedded_tls.Buffer.Lengths.{Encodes-with_u16_length}
use embedded_tls.Codec.NamedGroup.{NamedGroup, secp256r1}
use embedded_tls.Codec.SignatureScheme.{SignatureScheme}
use embedded_tls.Codec.KeyShare.{KeyShareEntry}
use embedded_tls.Codec.ServerName.{host_name}
use embedded_tls.Codec.Vectors.{MaxFragmentLength, psk_dhe_ke}
use embedded_tls.KeySchedule.Secrets.{WriteKeySchedule, hash_len, create_psk_binder}
use embedded_tls.Extensions.ClientHello as ClientHelloExtensions
use embedded_tls.Extensions.ClientHello.{
  ClientHelloExtension, supported_versions, signature_algorithms, max_fragment_length,
  supported_groups, psk_key_exchange_modes, key_share, server_name,
  application_layer_protocol_negotiation, pre_shared_key, Encodes-encode,
}

pub record TlsConfig : Type 0 where
  pub server_name : Option (List ℕ)
  pub alpn_protocols : Option (List (List ℕ))
  pub psk : Option (List ℕ × List (List ℕ))
  pub signature_schemes : List SignatureScheme
  pub named_groups : List NamedGroup
  pub max_fragment_length : Option MaxFragmentLength

pub record ClientHello (e : Ecdh) : Type 0 where
  pub config : TlsConfig
  pub random : List ℕ
  pub secret : e.EphemeralSecret

-- `if let Some(a) = option { list = [f(a)] }`
abbrev pub if_some : {A B : Type 0} → Option A → (A → B) → List B
if_some none f = []
if_some (some a) f = f a ∷ []

-- the bytes of an extension that is there only with a value in the configuration
abbrev pub bytes_if_some : {A : Type 0} → Option A → (A → ClientHelloExtension) → List ℕ
bytes_if_some none f = []
bytes_if_some (some a) f = ClientHelloExtensions.bytes (f a)

flat_map-if_some :
    {A : Type 0} (o : Option A) (f : A → ClientHelloExtension)
    → flat_map ClientHelloExtensions.bytes (if_some o f) ≡ bytes_if_some o f
unfolding flat_map
flat_map-if_some none f = refl
flat_map-if_some (some a) f = append-nil (ClientHelloExtensions.bytes (f a))

flat_map-if_some_append :
    {A : Type 0} (o : Option A) (f : A → ClientHelloExtension) (xs : List ClientHelloExtension)
    → flat_map ClientHelloExtensions.bytes (if_some o f ++ xs)
      ≡ bytes_if_some o f ++ flat_map ClientHelloExtensions.bytes xs
unfolding flat_map
flat_map-if_some_append none f xs = refl
flat_map-if_some_append (some a) f xs = refl

module _ (c : Suite) (e : Ecdh) where
  -- The extensions in the order in which they are encoded; the pre-shared key is the last.
  pub extensions : ClientHello e → List ClientHelloExtension
  extensions hello =
      let config = hello.config in
      (supported_versions (0x0304 ∷ [])
        ∷ signature_algorithms config.signature_schemes
        ∷ if_some config.max_fragment_length max_fragment_length)
      ++ ((supported_groups config.named_groups
            ∷ psk_key_exchange_modes (psk_dhe_ke ∷ [])
            ∷ key_share (record {
              client_shares = record { group = secp256r1; opaque = e.public_key hello.secret } ∷ [];
            })
            ∷ if_some config.server_name
                (λ name. server_name (record { name_type = host_name; name = name } ∷ [])))
          ++ (if_some config.alpn_protocols application_layer_protocol_negotiation
              ++ if_some config.psk
                  (λ psk. pre_shared_key (record { identities = psk.1; hash_size = hash_len c }))))

  pub encode : ClientHello e → Write (Unit {0})
  encode hello = do
    map_err (λ _. encode_error) (push_u16 0x0303)
    map_err (λ _. encode_error) (extend_from_slice hello.random)
    map_err (λ _. encode_error) (push 0)
    map_err (λ _. encode_error) (push_u16 2)
    map_err (λ _. encode_error) (push_u16 c.code_point)
    map_err (λ _. encode_error) (push 1)
    map_err (λ _. encode_error) (push 0)
    with_u16_length (for_each ClientHelloExtensions.encode (extensions hello))

  -- the bytes of the extensions, one line for each that a ClientHello may have
  abbrev pub extension_bytes : ClientHello e → List ℕ
  extension_bytes hello =
      let config = hello.config in
      let share : KeyShareEntry = record {
        group = secp256r1;
        opaque = e.public_key hello.secret;
      } in
      ClientHelloExtensions.bytes (supported_versions (0x0304 ∷ []))
      ++ (ClientHelloExtensions.bytes (signature_algorithms config.signature_schemes)
          ++ (bytes_if_some config.max_fragment_length max_fragment_length
              ++ (ClientHelloExtensions.bytes (supported_groups config.named_groups)
                  ++ (ClientHelloExtensions.bytes (psk_key_exchange_modes (psk_dhe_ke ∷ []))
                      ++ (ClientHelloExtensions.bytes
                            (key_share (record { client_shares = share ∷ [] }))
                          ++ (bytes_if_some config.server_name (λ name.
                                server_name (record { name_type = host_name; name = name } ∷ []))
                              ++ (bytes_if_some config.alpn_protocols
                                    application_layer_protocol_negotiation
                                  ++ bytes_if_some config.psk (λ psk.
                                    pre_shared_key (record {
                                      identities = psk.1;
                                      hash_size = hash_len c;
                                    })))))))))

  -- the bytes of a ClientHello
  abbrev pub hello_bytes : ClientHello e → List ℕ
  hello_bytes hello =
      let exts = extension_bytes hello in
      be16 0x0303
      ++ (hello.random
          ++ ((0 ∷ [])
              ++ (be16 2
                  ++ (be16 c.code_point
                      ++ ((1 ∷ []) ++ ((0 ∷ []) ++ (be16 (length exts) ++ exts)))))))

  extensions-bytes :
      (hello : ClientHello e)
      → flat_map ClientHelloExtensions.bytes (extensions hello) ≡ extension_bytes hello
  unfolding extensions flat_map
  extensions-bytes hello =
      let config = hello.config in
      behind (supported_versions (0x0304 ∷ [])) (
        behind (signature_algorithms config.signature_schemes) (
          flat_map-if_some_append config.max_fragment_length max_fragment_length _
          ∙ ap (λ r. bytes_if_some config.max_fragment_length max_fragment_length ++ r)
              (behind (supported_groups config.named_groups) (
                behind (psk_key_exchange_modes (psk_dhe_ke ∷ [])) (
                  behind
                    (key_share (record {
                      client_shares =
                          record { group = secp256r1; opaque = e.public_key hello.secret } ∷ [];
                    }))
                    (flat_map-if_some_append config.server_name named _
                      ∙ ap (λ r. bytes_if_some config.server_name named ++ r)
                          (flat_map-if_some_append config.alpn_protocols
                              application_layer_protocol_negotiation _
                            ∙ ap
                                (λ r.
                                  bytes_if_some config.alpn_protocols
                                    application_layer_protocol_negotiation
                                  ++ r)
                                (flat_map-if_some config.psk _))))))))
    where
      named : List ℕ → ClientHelloExtension
      named name = server_name (record { name_type = host_name; name = name } ∷ [])

      behind :
          (x : ClientHelloExtension) {ys zs : List ℕ}
          → ys ≡ zs
          → ClientHelloExtensions.bytes x ++ ys ≡ ClientHelloExtensions.bytes x ++ zs
      behind x p = ap (λ r. ClientHelloExtensions.bytes x ++ r) p

  -- For any configuration, the encoder of the ClientHello appends exactly the legacy version,
  -- the random, an empty session id, the one cipher suite, the null compression, and behind
  -- their length modulo 2^16 the extensions of the configuration in their order, the pre-
  -- shared key last with zeros for its binders; or it fails for lack of room. It never panics.
  pub Encodes-client_hello : (hello : ClientHello e) → Encodes (encode hello) (hello_bytes hello)
  unfolding encode
  Encodes-client_hello hello = Encodes-bind (Encodes-map_err _ (Encodes-push_u16 _)) (
      Encodes-bind (Encodes-map_err _ (Encodes-extend_from_slice _)) (
        Encodes-bind (Encodes-map_err _ (Encodes-push _)) (
          Encodes-bind (Encodes-map_err _ (Encodes-push_u16 _)) (
            Encodes-bind (Encodes-map_err _ (Encodes-push_u16 _)) (
              Encodes-bind (Encodes-map_err _ (Encodes-push _)) (
                Encodes-bind (Encodes-map_err _ (Encodes-push _)) (
                  Encodes-with_u16_length (
                    subst (Encodes (for_each ClientHelloExtensions.encode (extensions hello)))
                      (extensions-bytes hello)
                      (Encodes-for_each Encodes-encode (extensions hello))))))))))

-- `PskBinder::encode`
pub write_binder : List ℕ → Write (Unit {0})
write_binder verify =
    map_err (λ _. encode_error) (push (as_u8 (length verify)))
    >> map_err (λ _. encode_error) (extend_from_slice verify)

module _ ⦃h : Heapless⦄ (c : Suite) (e : Ecdh) where
  -- the bytes of the message, the transcript and the key schedule
  abbrev pub Finalizing : Type 0 → Type 0
  Finalizing = Exec (List ℕ × (c.digest.State × WriteKeySchedule)) TlsError

  -- `transcript.update(&enc_buf[start..end])`
  pub update_transcript : ℕ → ℕ → Finalizing (Unit {0})
  update_transcript start end (bytes, (t, k)) =
      if leb start end
      then if leb end (length bytes)
        then (ok tt, (bytes, (c.digest.update t (take (end - start) (drop start bytes)), k)))
        else (panic, (bytes, (t, k)))
      else (panic, (bytes, (t, k)))

  -- a binder of the transcript, into the buffer that wraps the end of the message
  pub add_binder :
      List ℕ → Exec (CryptoBuffer × (c.digest.State × WriteKeySchedule)) TlsError (Unit {0})
  add_binder identity (b, (t, k)) =
      (do binder ← on_right (on_right (create_psk_binder c t)); on_left (write_binder binder))
        (b, (t, k))

  pub add_binders : ℕ → List (List ℕ) → Finalizing (Unit {0})
  add_binders pos identities (bytes, s) =
      let (r, (b, s')) = for_each add_binder identities (wrap (drop pos bytes), s) in
      (r, (take pos bytes ++ b.buf, s'))

  -- `ClientHello::finalize`
  pub finalize : ClientHello e → Finalizing (Unit {0})
  finalize hello = elim hello.config.psk [
    | none ↦ gets (λ s. length s.0) >>= update_transcript 0
    | some psk ↦ (do
      n ← gets (λ s. length s.0)
      pos ← sub n (length psk.1 * (1 + hash_len c))
      end ← sub pos 2
      update_transcript 0 end
      add_binders pos psk.1
      update_transcript end n)
  ]
