-- ===== src/Config/Built.antt =====
-- What a sequence of calls of the builders of src/config.rs makes of a configuration, and where it panics.
use embedded_tls.Prelude.{
  ℕ, ◌+◌, ◌<◌, ◌≤◌, ◌≡◌, refl, sym, ap, ◌∙◌, ◌⊎◌, inl, inr, lt_or_le, Bool, true, false, Option,
  none, some, List, [], ◌∷◌, ◌++◌, arith, length, length-append, append_assoc, append-nil, subst,
  if◌then◌else◌,
}
use embedded_tls.Exec.{Result, ok, panic, pure, gets, unwrap, then_ok, for_each, ◌>>=◌, ◌>>◌}
use embedded_tls.Error.{TlsError}
use embedded_tls.Heapless.{Heapless}
use embedded_tls.Codec.NamedGroup.{secp256r1}
use embedded_tls.Codec.SignatureScheme.{
  SignatureScheme, ecdsa_secp256r1_sha256, ecdsa_secp384r1_sha384, ed25519, rsa_pkcs1_sha256,
  rsa_pkcs1_sha384, rsa_pkcs1_sha512, rsa_pss_rsae_sha256, rsa_pss_rsae_sha384, rsa_pss_rsae_sha512,
}
use embedded_tls.Codec.Vectors.{MaxFragmentLength}
use embedded_tls.Handshake.ClientHello.{TlsConfig}
use embedded_tls.Config.{
  Building, blank, rsa_schemes, set_schemes, set_psk, push_scheme, enable_rsa_signatures, new,
  with_server_name, with_alpn, with_max_fragment_length, reset_max_fragment_length, with_psk,
}
use embedded_tls.Config.Fresh.{new-ok}

-- a call of a builder
pub data Builder : Type 0 where
  rsa : Builder
  server_name : List ℕ → Builder
  alpn : List (List ℕ) → Builder
  fragments : MaxFragmentLength → Builder
  reset_fragments : Builder
  psk : List ℕ → List (List ℕ) → Builder

module _ ⦃h : Heapless⦄ where
  abbrev pub run : Builder → Building
  run rsa = enable_rsa_signatures
  run (server_name name) = with_server_name name
  run (alpn protocols) = with_alpn protocols
  run (fragments n) = with_max_fragment_length n
  run reset_fragments = reset_max_fragment_length
  run (psk key ids) = with_psk key ids

  -- `TlsConfig::new` and the calls of builders behind it
  abbrev pub configured : Bool → List Builder → Building
  configured alloc calls = new alloc >> for_each run calls

-- the schemes of RSA as often as they were enabled
abbrev pub rsa_of : List Builder → List SignatureScheme
rsa_of [] = []
rsa_of (rsa ∷ calls) =
    rsa_pkcs1_sha256
    ∷ rsa_pkcs1_sha384
    ∷ rsa_pkcs1_sha512
    ∷ rsa_pss_rsae_sha256
    ∷ rsa_pss_rsae_sha384
    ∷ rsa_pss_rsae_sha512
    ∷ rsa_of calls
rsa_of (_ ∷ calls) = rsa_of calls

-- what the last call of its kind gave, or else what was there
abbrev pub name_of : List Builder → Option (List ℕ) → Option (List ℕ)
name_of [] name = name
name_of (server_name last ∷ calls) name = name_of calls (some last)
name_of (_ ∷ calls) name = name_of calls name

abbrev pub protocols_of : List Builder → Option (List (List ℕ)) → Option (List (List ℕ))
protocols_of [] protocols = protocols
protocols_of (alpn last ∷ calls) protocols = protocols_of calls (some last)
protocols_of (_ ∷ calls) protocols = protocols_of calls protocols

abbrev pub fragment_of : List Builder → Option MaxFragmentLength → Option MaxFragmentLength
fragment_of [] n = n
fragment_of (fragments last ∷ calls) n = fragment_of calls (some last)
fragment_of (reset_fragments ∷ calls) n = fragment_of calls none
fragment_of (_ ∷ calls) n = fragment_of calls n

abbrev pub psk_of : List Builder → Option (List ℕ × List (List ℕ)) → Option (List ℕ × List (List ℕ))
psk_of [] key = key
psk_of (psk last ids ∷ calls) key = psk_of calls (some (last, ids))
psk_of (_ ∷ calls) key = psk_of calls key

abbrev pub after : List Builder → TlsConfig → TlsConfig
after calls config = record {
  server_name = name_of calls config.server_name;
  alpn_protocols = protocols_of calls config.alpn_protocols;
  psk = psk_of calls config.psk;
  signature_schemes = config.signature_schemes ++ rsa_of calls;
  named_groups = config.named_groups;
  max_fragment_length = fragment_of calls config.max_fragment_length;
}

-- No call names more than four identities.
abbrev pub FewIdentities : List Builder → Type 0
FewIdentities [] = Unit
FewIdentities (psk _ ids ∷ calls) = (length ids ≤ 4) × FewIdentities calls
FewIdentities (_ ∷ calls) = FewIdentities calls

-- There is room for `n` schemes and those of the calls, and for the identities of each call.
abbrev pub Fits : ℕ → List Builder → Type 0
Fits n calls = (n + length (rsa_of calls) ≤ 25) × FewIdentities calls

module _ ⦃h : Heapless⦄ where
  -- The calls give a configuration, or they panic.
  abbrev Outcome : Type 0 → Result TlsError (Unit {0}) × TlsConfig → TlsConfig → Type 0
  Outcome Room out config = (Room × (out ≡ (ok tt, config))) ⊎ ((¬ Room) × (out.0 ≡ panic))

  pushed :
      (x : SignatureScheme) (config : TlsConfig)
      → Outcome
          (length config.signature_schemes < 25)
          (push_scheme x config)
          (record config { signature_schemes = config.signature_schemes ++ (x ∷ []) })
  unfolding push_scheme set_schemes gets unwrap ◌>>=◌
  pushed x config = elim (lt_or_le (length config.signature_schemes) 25) [
    | inl room ↦ inl (room, rw (h.push_ok SignatureScheme 25 config.signature_schemes x room) refl)
    | inr full ↦ inr (
      λ room. omega arith,
      rw (h.push_full SignatureScheme 25 config.signature_schemes x full) refl,
    )
  ]

  Outcome-then :
      {P Q R : Type 0} (m n : Building) {config c d : TlsConfig}
      → (P → Q → R)
      → (R → P × Q)
      → Outcome P (m config) c
      → (P → Outcome Q (n c) d)
      → Outcome R ((m >> n) config) d
  unfolding ◌>>=◌
  Outcome-then m n all parts (inl (p, e)) rest = elim (rest p) [
    | inl (q, f) ↦ inl (all p q, then_ok m (λ _. n) e f)
    | inr (full, f) ↦ inr (λ r. full (parts r).1, ap (λ o. o.0) (then_ok m (λ _. n) e refl) ∙ f)
  ]
  Outcome-then m n all parts (inr (full, e)) rest = inr (λ r. full (parts r).0, rw e)

  pushed_all :
      (xs : List SignatureScheme) (config : TlsConfig)
      → length config.signature_schemes ≤ 25
      → Outcome
          (length config.signature_schemes + length xs ≤ 25)
          (for_each push_scheme xs config)
          (record config { signature_schemes = config.signature_schemes ++ xs })
  unfolding for_each pure
  pushed_all [] config bound = inl (
    omega arith,
    ap (λ ys. (ok tt, record config { signature_schemes = ys }))
        (sym (append-nil config.signature_schemes)),
  )
  pushed_all (x ∷ xs) config bound =
      let more = record config { signature_schemes = config.signature_schemes ++ (x ∷ []) } in
      let n : length (config.signature_schemes ++ (x ∷ [])) ≡ length config.signature_schemes + 1 =
        length-append config.signature_schemes (x ∷ []) in
      Outcome-then (push_scheme x) (for_each push_scheme xs) (λ p q. omega arith)
        (λ r. (omega arith, omega arith)) (pushed x config)
        (λ p.
          subst
            (λ ys.
              Outcome (length (config.signature_schemes ++ (x ∷ [])) + length xs ≤ 25)
                (for_each push_scheme xs more) (record config { signature_schemes = ys }))
            (append_assoc config.signature_schemes (x ∷ []) xs) (pushed_all xs more (omega arith)))

  with_identities :
      (key : List ℕ) (ids : List (List ℕ)) (config : TlsConfig)
      → Outcome (length ids ≤ 4) (with_psk key ids config) (record config { psk = some (key, ids) })
  unfolding with_psk set_psk unwrap ◌>>=◌
  with_identities key ids config = elim (lt_or_le 4 (length ids)) [
    | inl over ↦ inr (λ room. omega arith, rw (h.extend_full (List ℕ) 4 [] ids (omega arith)) refl)
    | inr fit ↦ inl (fit, rw (h.extend_ok (List ℕ) 4 [] ids (omega arith)) refl)
  ]

  built :
      (calls : List Builder) (config : TlsConfig)
      → length config.signature_schemes ≤ 25
      → Outcome
          (Fits (length config.signature_schemes) calls)
          (for_each run calls config)
          (after calls config)
  unfolding for_each pure enable_rsa_signatures with_server_name with_alpn with_max_fragment_length
      reset_max_fragment_length
  built [] config bound = inl (
    (omega arith, tt),
    ap (λ ys. (ok tt, record config { signature_schemes = ys }))
        (sym (append-nil config.signature_schemes)),
  )
  built (rsa ∷ calls) config bound =
      let schemes = config.signature_schemes ++ rsa_schemes in
      let n : length schemes ≡ length config.signature_schemes + 6 =
        length-append config.signature_schemes rsa_schemes in
      Outcome-then enable_rsa_signatures (for_each run calls) (λ p q. (omega arith, q.1))
        (λ r. (omega arith, (omega arith, r.1))) (pushed_all rsa_schemes config bound)
        (λ p.
          subst
            (λ ys.
              Outcome (Fits (length schemes) calls)
                (for_each run calls (record config { signature_schemes = schemes }))
                (record (after calls config) { signature_schemes = ys }))
            (append_assoc config.signature_schemes rsa_schemes (rsa_of calls))
            (built calls (record config { signature_schemes = schemes }) (omega arith)))
  built (server_name name ∷ calls) config bound =
      Outcome-then (with_server_name name) (for_each run calls) (λ _ q. q) (λ r. (tt, r))
        (inl (tt, refl)) (λ _. built calls _ bound)
  built (alpn protocols ∷ calls) config bound =
      Outcome-then (with_alpn protocols) (for_each run calls) (λ _ q. q) (λ r. (tt, r))
        (inl (tt, refl)) (λ _. built calls _ bound)
  built (fragments n ∷ calls) config bound =
      Outcome-then (with_max_fragment_length n) (for_each run calls) (λ _ q. q) (λ r. (tt, r))
        (inl (tt, refl)) (λ _. built calls _ bound)
  built (reset_fragments ∷ calls) config bound =
      Outcome-then reset_max_fragment_length (for_each run calls) (λ _ q. q) (λ r. (tt, r))
        (inl (tt, refl)) (λ _. built calls _ bound)
  built (psk key ids ∷ calls) config bound =
      Outcome-then (with_psk key ids) (for_each run calls) (λ p q. (q.0, (p, q.1)))
        (λ r. (r.1.0, (r.0, r.1.1))) (with_identities key ids config) (λ _. built calls _ bound)

  -- what `TlsConfig::new` makes
  abbrev pub fresh : Bool → TlsConfig
  fresh alloc = record {
    server_name = none;
    alpn_protocols = none;
    psk = none;
    signature_schemes =
        (if alloc then rsa_of (rsa ∷ []) else [])
        ++ (ecdsa_secp256r1_sha256 ∷ ecdsa_secp384r1_sha384 ∷ ed25519 ∷ []);
    named_groups = secp256r1 ∷ [];
    max_fragment_length = none;
  }

  -- `TlsConfig::new`, with the feature `alloc` or without, and any calls of builders behind
  -- it: where the schemes of the start and six for each `enable_rsa_signatures` are 25 at most
  -- and no `with_psk` names more than 4 identities, they give exactly the schemes in the order
  -- of the calls, the one group, and of each other field what the last call that concerns it
  -- gave; otherwise they panic.
  pub configured-Built :
      (alloc : Bool) (calls : List Builder)
      → (Fits (length (fresh alloc).signature_schemes) calls
          × (configured alloc calls blank ≡ (ok tt, after calls (fresh alloc))))
        ⊎ ((¬ Fits (length (fresh alloc).signature_schemes) calls)
            × ((configured alloc calls blank).0 ≡ panic))
  unfolding blank
  configured-Built alloc calls =
      Outcome-then (new alloc) (for_each run calls) (λ _ q. q) (λ r. (tt, r))
        (inl (tt, new-ok alloc)) (λ _. built calls (fresh alloc) (few alloc))
    where
      few : (alloc : Bool) → length (fresh alloc).signature_schemes ≤ 25
      few true = omega arith
      few false = omega arith
