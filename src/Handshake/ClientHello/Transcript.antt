-- ===== src/Handshake/ClientHello/Transcript.antt =====
-- What `finalize` makes of the transcript.
use embedded_tls.Prelude.{
  ◌%◌, ℕ, ◌+◌, ◌-◌, ◌*◌, ◌≤◌, ◌≡◌, refl, sym, ap, ap₂, subst, ◌∙◌, inl, inr, lt_or_le, Option, none,
  some, List, [], ◌∷◌, ◌++◌, arith, length, take, drop, le→leb, take-append, take-take,
  length-append, length-overwrite, length-drop, length-take, take-append-drop, take_all,
  lt→leb_false,
}
use embedded_tls.Exec.{
  Result, ok, err, panic, stuck, IsErr, Exec, pure, gets, continue, for_each, sub, on_left,
  on_right, ◌>>=◌,
}
use embedded_tls.Error.{TlsError}
use embedded_tls.Heapless.{Heapless}
use embedded_tls.Suite.{Suite}
use embedded_tls.Ecdh.{Ecdh}
use embedded_tls.Buffer.{CryptoBuffer, Write, wrap}
use embedded_tls.Buffer.Encodes.{
  Encodes, IsValid, put-IsValid, Encodes-push, Encodes-extend_from_slice, Encodes-bind,
  Encodes-map_err,
}
use embedded_tls.KeySchedule.Secrets.{WriteKeySchedule, create_psk_binder, hash_len}
use embedded_tls.Handshake.ClientHello.{
  ClientHello, write_binder, update_transcript, add_binder, add_binders, finalize,
}

-- What an encoder that succeeded leaves: a valid buffer over an array of the same length.
record Grown (b b' : CryptoBuffer) : Type 0 where
  pub valid : IsValid b'
  pub same : length b'.buf ≡ length b.buf

Encodes-Grown :
    {m : Write (Unit {0})} {bs : List ℕ}
    → Encodes m bs
    → (b : CryptoBuffer) → IsValid b
    → (m b).0 ≡ ok tt
    → Grown b (m b).1
Encodes-Grown {m} {bs} em b v p = elim (lt_or_le (length b.buf) (b.offset + b.len + length bs)) [
  | inl over ↦ absurd (subst IsErr p (em.full b v over))
  | inr fit ↦
      rw (em.fits b fit) (record {
        valid = put-IsValid b bs fit;
        same = length-overwrite b.buf (b.offset + b.len) bs;
      })
]

Encodes-write_binder :
    (verify : List ℕ) → Encodes (write_binder verify) ((length verify % 256) ∷ verify)
unfolding write_binder
Encodes-write_binder verify =
    Encodes-bind (Encodes-map_err _ (Encodes-push _))
      (Encodes-map_err _ (Encodes-extend_from_slice verify))

module _ ⦃h : Heapless⦄ (c : Suite) (e : Ecdh) where
  -- the buffer with the binders has grown, and the transcript is the same
  abbrev Kept :
      CryptoBuffer × (c.digest.State × WriteKeySchedule)
      → CryptoBuffer × (c.digest.State × WriteKeySchedule)
      → Type 0
  Kept s s' = Grown s.0 s'.0 × (s'.1.0 ≡ s.1.0)

  add_binder-Kept :
      (identity : List ℕ) (s : CryptoBuffer × (c.digest.State × WriteKeySchedule))
      → IsValid s.0
      → (add_binder c e identity s).0 ≡ ok tt
      → Kept s (add_binder c e identity s).1
  unfolding add_binder on_left on_right ◌>>=◌
  add_binder-Kept identity (b, (t, k)) v =
      go (create_psk_binder c t k).0 (create_psk_binder c t k).1
    where
      go :
          (r : Result TlsError (List ℕ)) (k' : WriteKeySchedule)
          → let out =
              continue {S = CryptoBuffer × (c.digest.State × WriteKeySchedule)} r
                (λ binder. on_left (write_binder binder))
                (b, (t, k')) in
            out.0 ≡ ok tt → Kept (b, (t, k)) out.1
      go (ok binder) k' p = (Encodes-Grown (Encodes-write_binder binder) b v p, refl)
      go (err _) k' p = cc
      go panic k' p = cc
      go stuck k' p = cc

  add_all-Kept :
      (identities : List (List ℕ)) (s : CryptoBuffer × (c.digest.State × WriteKeySchedule))
      → IsValid s.0
      → (for_each (add_binder c e) identities s).0 ≡ ok tt
      → Kept s (for_each (add_binder c e) identities s).1
  unfolding for_each ◌>>=◌ pure
  add_all-Kept [] s v = λ p. (record { valid = v; same = refl }, refl)
  add_all-Kept (x ∷ xs) s v =
      go (add_binder c e x s).0 (add_binder c e x s).1 (add_binder-Kept x s v)
        (λ s' v' p. add_all-Kept xs s' v' p)
    where
      go :
          (r : Result TlsError (Unit {0})) (s' : CryptoBuffer × (c.digest.State × WriteKeySchedule))
          → (r ≡ ok tt → Kept s s')
          → ((q : CryptoBuffer × (c.digest.State × WriteKeySchedule))
              → IsValid q.0
              → (for_each (add_binder c e) xs q).0 ≡ ok tt
              → Kept q (for_each (add_binder c e) xs q).1)
          → let out = continue r (λ _. for_each (add_binder c e) xs) s' in
            out.0 ≡ ok tt → Kept s out.1
      go (ok _) s' one others p =
          let first = one refl in
          let rest = others s' first.0.valid p in
          (record { valid = rest.0.valid; same = rest.0.same ∙ first.0.same }, rest.1 ∙ first.1)
      go (err _) s' one others p = cc
      go panic s' one others p = cc
      go stuck s' one others p = cc

module _ ⦃h : Heapless⦄ (c : Suite) (e : Ecdh) where
  update_transcript_lem :
      (start end : ℕ) (bytes : List ℕ) (t : c.digest.State) (k : WriteKeySchedule)
      → start ≤ end
      → end ≤ length bytes
      → update_transcript c e start end (bytes, (t, k))
        ≡ (ok tt, (bytes, (c.digest.update t (take (end - start) (drop start bytes)), k)))
  unfolding update_transcript
  update_transcript_lem start end bytes t k p q =
      rw (le→leb start end p, le→leb end (length bytes) q) refl

  -- the binders are written over the end of the message
  add_binders_lem :
      (pos : ℕ) (identities : List (List ℕ)) (bytes : List ℕ)
      (s : c.digest.State × WriteKeySchedule)
      → pos ≤ length bytes
      → let out = add_binders c e pos identities (bytes, s) in
        out.0 ≡ ok tt
        → (length out.1.0 ≡ length bytes)
          × ((take pos out.1.0 ≡ take pos bytes) × (out.1.1.0 ≡ s.0))
  unfolding add_binders wrap
  add_binders_lem pos identities bytes s inside p =
      let b : CryptoBuffer = record { buf = drop pos bytes; offset = 0; len = 0 } in
      let kept = add_all-Kept c e identities (b, s) (record { inside = omega arith }) p in
      let out = for_each (add_binder c e) identities (b, s) in
      let front : length (take pos bytes) ≡ pos = omega (arith, length-take pos bytes) in
      (
        omega
            (arith, length-append (take pos bytes) out.1.0.buf, kept.0.same, length-drop pos bytes),
        (
          ap (λ n. take n (take pos bytes ++ out.1.0.buf)) (sym front)
              ∙ take-append (take pos bytes) out.1.0.buf,
          kept.1,
        ),
      )

  -- Two updates by the two parts of a list.
  update_parts :
      (t t' : c.digest.State) (bytes bytes' : List ℕ) (pos end n : ℕ)
      → t' ≡ c.digest.update t (take end bytes)
      → take pos bytes' ≡ take pos bytes
      → end ≤ pos
      → length bytes' ≤ n
      → c.digest.update t' (take (n - end) (drop end bytes')) ≡ c.digest.update t bytes'
  update_parts t t' bytes bytes' pos end n p q inside long =
      let front : take end bytes ≡ take end bytes' =
        sym (take-take end pos bytes inside)
        ∙ ap (take end) (sym q)
        ∙ take-take end pos bytes' inside in
      ap₂ c.digest.update (p ∙ ap (c.digest.update t) front)
        (take_all (n - end) (drop end bytes') (omega (arith, length-drop end bytes')))
      ∙ c.digest.update-update t (take end bytes') (drop end bytes')
      ∙ ap (c.digest.update t) (take-append-drop end bytes')

  abbrev pub Message : Type 0
  Message = List ℕ × (c.digest.State × WriteKeySchedule)

  -- The transcript has got exactly the bytes of the message as they are in the end.
  abbrev Transcribed : Message → Result TlsError (Unit {0}) × Message → Type 0
  Transcribed s out =
      out.0 ≡ ok tt → (length out.1.0 ≡ length s.0) × (out.1.1.0 ≡ c.digest.update s.1.0 out.1.0)

  abbrev with_binders : ℕ → ℕ → ℕ → List (List ℕ) → Exec Message TlsError (Unit {0})
  with_binders pos end n identities = update_transcript c e 0 end >>= λ _.
      add_binders c e pos identities >>= λ _. update_transcript c e end n

  with_binders-Transcribed :
      (pos end n : ℕ) (identities : List (List ℕ)) (s : Message)
      → end ≤ pos
      → pos ≤ n
      → n ≡ length s.0
      → Transcribed s (with_binders pos end n identities s)
  unfolding ◌>>=◌
  with_binders-Transcribed pos end n identities (bytes, (t, k)) a b d =
      rw (update_transcript_lem 0 end bytes t k (omega arith) (omega arith)) (
        go (add_binders c e pos identities s1).0 (add_binders c e pos identities s1).1
          (add_binders_lem pos identities bytes s1.1 (omega arith)))
    where
      s1 : Message
      s1 = (bytes, (c.digest.update t (take (end - 0) bytes), k))

      go :
          (r : Result TlsError (Unit {0})) (s : Message)
          → (r ≡ ok tt
              → (length s.0 ≡ length bytes) × ((take pos s.0 ≡ take pos bytes) × (s.1.0 ≡ s1.1.0)))
          → Transcribed (bytes, (t, k)) (continue r (λ _. update_transcript c e end n) s)
      go (ok _) (bytes', (t', k')) f =
          let (same, (front, kept)) = f refl in
          rw (update_transcript_lem end n bytes' t' k' (omega arith) (omega arith)) (λ p. (
            same,
            update_parts t t' bytes bytes' pos end n
                (kept ∙ ap (λ m. c.digest.update t (take m bytes)) (omega arith)) front a
                (omega arith),
          ))
      go (err _) s f = λ p. cc
      go panic s f = λ p. cc
      go stuck s f = λ p. cc

  finalize_lem : (hello : ClientHello e) (s : Message) → Transcribed s (finalize c e hello s)
  unfolding finalize gets sub ◌>>=◌
  finalize_lem hello s = go hello.config.psk refl
    where
      go :
          (o : Option (List ℕ × List (List ℕ)))
          → hello.config.psk ≡ o
          → Transcribed s (finalize c e hello s)
      go none p =
          rw (p, update_transcript_lem 0 (length s.0) s.0 s.1.0 s.1.1 (omega arith) (omega arith))
            (λ q. (refl, ap (c.digest.update s.1.0) (take_all (length s.0 - 0) s.0 (omega arith))))
      go (some psk) p =
          let n = length s.0 in
          let b = length psk.1 * (1 + hash_len c) in
          elim (lt_or_le n b) [
            | inl over ↦ rw (p, lt→leb_false b n over) (λ q. cc)
            | inr fit ↦ elim (lt_or_le (n - b) 2) [
              | inl over ↦ rw (p, le→leb b n fit, lt→leb_false 2 (n - b) over) (λ q. cc)
              | inr room ↦
                  rw (p, le→leb b n fit, le→leb 2 (n - b) room)
                    (with_binders-Transcribed (n - b) (n - b - 2) n psk.1 s (omega arith)
                      (omega arith) refl)
            ]
          ]

  -- Without a pre-shared key it succeeds.
  pub finalize-ok :
      (hello : ClientHello e) (s : Message)
      → hello.config.psk ≡ none
      → (finalize c e hello s).0 ≡ ok tt
  unfolding finalize gets ◌>>=◌
  finalize-ok hello s p =
      rw (p, update_transcript_lem 0 (length s.0) s.0 s.1.0 s.1.1 (omega arith) (omega arith)) refl

  -- Where `ClientHello::finalize` succeeds, with binders written into the message for a pre-
  -- shared key or without, the message keeps its length, and the transcript is updated with
  -- exactly the bytes of the message as they are then, though it was fed in two parts, the
  -- first before the binders were made.
  pub finalize-transcript :
      (hello : ClientHello e) (s : Message)
      → let out = finalize c e hello s in
        out.0 ≡ ok tt → (length out.1.0 ≡ length s.0) × (out.1.1.0 ≡ c.digest.update s.1.0 out.1.0)
  finalize-transcript hello s p = finalize_lem hello s p
