-- ===== src/Extensions/Skipping.antt =====
-- An extension that is not recognised has been read too, so passing over it makes progress.
use embedded_tls.Prelude.{
  ℕ, ◌+◌, ◌≤◌, ◌≡◌, refl, ap, ◌∙◌, false, Bool-cases, inl, inr, Option, none, arith, length,
}
use embedded_tls.Exec.{
  Result, ok, err, panic, stuck, Returns, Exec, pure, map_err, relabel, continue, ◌>>=◌,
}
use embedded_tls.Error.{TlsError, decode_error}
use embedded_tls.Parse.{ParseBuffer, read_u16, slice}
use embedded_tls.Parse.Total.{
  IsValid, After, Total, Total-pure, Total-weaken, Total-any, Total-bind, Total-then, Total-map_err,
  Total-read_u16, Total-slice,
}
use embedded_tls.Codec.Table.{Total-ok_or}
use embedded_tls.Codec.ExtensionType.{of_code}
use embedded_tls.Extensions.{
  read_extension_type, settle, attempt, extension_head, is_unknown, forgive, known,
}

abbrev pub NotUnknown : {A : Type 0} → Result TlsError A → Type 0
NotUnknown (ok a) = Unit
NotUnknown (err e) = is_unknown e ≡ false
NotUnknown panic = Unit
NotUnknown stuck = Unit

-- An action that does not fail as an unrecognised extension does.
pub record Known {S A : Type 0} (m : Exec S TlsError A) : Type 0 where
  pub at : (s : S) → NotUnknown (m s).0

module _ {S A B : Type 0} where
  NotUnknown-continue :
      (r : Result TlsError A) (f : A → Exec S TlsError B) (s : S)
      → NotUnknown r
      → ((a : A) → Known (f a))
      → NotUnknown (continue r f s).0
  NotUnknown-continue (ok a) f s h g = (g a).at s
  NotUnknown-continue (err e) f s h g = h
  NotUnknown-continue panic f s h g = tt
  NotUnknown-continue stuck f s h g = tt

  Known-bind :
      {m : Exec S TlsError A} {f : A → Exec S TlsError B}
      → Known m
      → ((a : A) → Known (f a))
      → Known (m >>= f)
  unfolding ◌>>=◌
  Known-bind {m} {f} h g = record { at = λ s. NotUnknown-continue (m s).0 f (m s).1 (h.at s) g }

module _ {A : Type 0} where
  Known-pure : {S : Type 0} (a : A) → Known {S = S} (pure a)
  unfolding pure
  Known-pure a = record { at = λ s. tt }

  NotUnknown-relabel :
      {E : Type 0} (e : TlsError) (r : Result E A)
      → is_unknown e ≡ false
      → NotUnknown (relabel (λ _. e) r)
  NotUnknown-relabel e (ok a) h = tt
  NotUnknown-relabel e (err x) h = h
  NotUnknown-relabel e panic h = tt
  NotUnknown-relabel e stuck h = tt

  NotUnknown-settle : {E : Type 0} (r : Result E A) → NotUnknown (settle r)
  NotUnknown-settle (ok a) = tt
  NotUnknown-settle (err e) = tt
  NotUnknown-settle panic = tt
  NotUnknown-settle stuck = tt

module _ {S E A : Type 0} where
  -- an action all of whose errors are turned into one
  Known-map_err :
      (e : TlsError) (m : Exec S E A) → is_unknown e ≡ false → Known (map_err (λ _. e) m)
  unfolding map_err
  Known-map_err e m h = record { at = λ s. NotUnknown-relabel e (m s).0 h }

  Known-attempt : (m : Exec S E A) → Known (attempt m)
  unfolding attempt
  Known-attempt m = record { at = λ s. NotUnknown-settle (m s).0 }

module _ {E F A : Type 0} where
  Total-attempt :
      {k : ℕ} {Q : A → Type 0} {m : Exec ParseBuffer E A}
      → Total k Q m
      → Total {E = F} 0 (λ r. Returns r) (attempt m)
  unfolding attempt
  Total-attempt {k} {Q} {m} t = record { at = λ p v. go p (m p).0 (m p).1 (t.at p v) }
    where
      go :
          (p : ParseBuffer) (r : Result E A) (q : ParseBuffer)
          → After k Q p (r, q)
          → After {E = F} 0 (λ r. Returns r) p (settle r, q)
      go p (ok a) q s = record {
        returns = tt;
        same = s.same;
        forth = s.forth;
        inside = s.inside;
        eats = (omega (arith, s.forth), tt);
      }
      go p (err e) q s = record {
        returns = tt;
        same = s.same;
        forth = s.forth;
        inside = s.inside;
        eats = (omega (arith, s.forth), tt);
      }
      go p panic q s = absurd s.returns
      go p stuck q s = absurd s.returns

Total-read_extension_type : Total 2 (λ _. Unit {0}) read_extension_type
unfolding read_extension_type
Total-read_extension_type = Total-then Total-read_u16 (λ n _. Total-any (Total-ok_or _ (of_code n)))

pub Total-extension_head : Total 2 (λ x. Returns x.0 × IsValid x.1) extension_head
unfolding extension_head
Total-extension_head =
    Total-weaken
      (Total-bind (Total-attempt Total-read_extension_type) (λ t r.
        Total-then (Total-map_err _ Total-read_u16) (λ n _.
          Total-weaken
            (Total-bind (Total-map_err _ (Total-slice n)) (λ q w. Total-pure (t, q) (r, w)))
            (omega arith) (λ _ w. w))))
      (omega arith) (λ _ w. w)

pub Known-extension_head : Known extension_head
unfolding extension_head
Known-extension_head = Known-bind (Known-attempt read_extension_type) (λ t.
    Known-bind (Known-map_err decode_error read_u16 refl)
      (λ n. Known-bind (Known-map_err decode_error (slice n) refl) (λ q. Known-pure (t, q))))

module _ {G : Type 0} where
  forgive_on :
      (P : Result TlsError (Option G) → Type 0) (e : TlsError)
      → P (ok none)
      → P (err e)
      → P (forgive (err e))
  forgive_on P e h g = elim (Bool-cases (is_unknown e)) [ inl y ↦ rw y h | inr n ↦ rw n g ]

  -- A run behind `k` bytes that were read.
  After-forgive :
      (k : ℕ) {Q : G → Type 0} (p q q' : ParseBuffer) (r : Result TlsError G)
      → q.buffer ≡ p.buffer
      → p.pos + k ≤ q.pos
      → After 0 Q q (r, q')
      → After k (λ _. Unit {0}) p (forgive r, q')
  After-forgive k p q q' (ok g) same far s = record {
    returns = tt;
    same = s.same ∙ same;
    forth = omega (arith, s.forth);
    inside = omega (arith, s.inside, ap length same);
    eats = (omega (arith, s.forth), tt);
  }
  After-forgive k p q q' (err e) same far s =
      forgive_on (λ r. After k (λ _. Unit {0}) p (r, q')) e
        (record {
          returns = tt;
          same = s.same ∙ same;
          forth = omega (arith, s.forth);
          inside = omega (arith, s.inside, ap length same);
          eats = (omega (arith, s.forth), tt);
        })
        (record {
          returns = tt;
          same = s.same ∙ same;
          forth = omega (arith, s.forth);
          inside = omega (arith, s.inside, ap length same);
          eats = tt;
        })
  After-forgive k p q q' panic same far s = absurd s.returns
  After-forgive k p q q' stuck same far s = absurd s.returns

  After-err :
      (k : ℕ) (p q : ParseBuffer) (e : TlsError)
      → is_unknown e ≡ false
      → After {A = G} k (λ _. Unit {0}) p (err e, q)
      → After k (λ _. Unit {0}) p (forgive {G = G} (err e), q)
  After-err k p q e known s =
      rw known
        (record { returns = tt; same = s.same; forth = s.forth; inside = s.inside; eats = tt })

-- An extension that was not recognised has been read too.
module _ {A G : Type 0} where
  pub Total-known :
      {k : ℕ} {P : A → Type 0} {Q : G → Type 0} {m : Exec ParseBuffer TlsError A}
      {f : A → Exec ParseBuffer TlsError G}
      → Total k P m
      → Known m
      → ((a : A) → P a → Total 0 Q (f a))
      → Total k (λ _. Unit {0}) (known (m >>= f))
  unfolding known ◌>>=◌
  Total-known {k} {P} {Q} {m} {f} t u g = record {
    at = λ p v. go p v (m p).0 (m p).1 (t.at p v) (u.at p);
  }
    where
      go :
          (p : ParseBuffer) (v : IsValid p) (r : Result TlsError A) (q : ParseBuffer)
          → After k P p (r, q)
          → NotUnknown r
          → After k (λ _. Unit {0}) p (forgive (continue r f q).0, (continue r f q).1)
      go p v (ok a) q s n =
          After-forgive k p q (f a q).1 (f a q).0 s.same (s.eats.0)
            ((g a s.eats.1).at q (omega (arith, s.inside, ap length s.same)))
      go p v (err e) q s n =
          After-err k p q e n
            (record { returns = tt; same = s.same; forth = s.forth; inside = s.inside; eats = tt })
      go p v panic q s n = absurd s.returns
      go p v stuck q s n = absurd s.returns
