-- ===== src/Simulation.antt =====
-- Two actions that run alike: on related objects they return the same and leave related objects.
use embedded_tls.Prelude.{◌≡◌, refl, ap}
use embedded_tls.Exec.{
  Result, ok, err, panic, stuck, Exec, pure, raise, gets, continue, outcome, scoped, with_local,
  on_left, on_right, ◌>>=◌,
}

abbrev pub Both :
    {S' S E A : Type 0} → (S' → S → Type 0) → Result E A × S' → Result E A × S → Type 0
Both R x' x = (x'.0 ≡ x.0) × R x'.1 x.1

pub record Along {S' S E A : Type 0} (R : S' → S → Type 0) (m' : Exec S' E A) (m : Exec S E A)
    : Type 0 where
  pub at : (s' : S') (s : S) → R s' s → Both R (m' s') (m s)

module _ {S' S E A : Type 0} {R : S' → S → Type 0} where
  pub Along-outcome : (r : Result E A) → Along {E = E} R (outcome r) (outcome r)
  Along-outcome r = record { at = λ s' s h. (refl, h) }

  pub Along-pure : (a : A) → Along {E = E} R (pure a) (pure a)
  unfolding pure
  Along-pure a = record { at = λ s' s h. (refl, h) }

  pub Along-raise : (e : E) → Along {A = A} R (raise e) (raise e)
  unfolding raise
  Along-raise e = record { at = λ s' s h. (refl, h) }

  pub Along-gets :
      (f' : S' → A) (f : S → A)
      → ((s' : S') (s : S) → R s' s → f' s' ≡ f s)
      → Along {E = E} R (gets f') (gets f)
  unfolding gets
  Along-gets f' f same = record { at = λ s' s h. (ap ok (same s' s h), h) }

module _ {S' S E A B : Type 0} {R : S' → S → Type 0} where
  pub Along-bind :
      {m' : Exec S' E A} {m : Exec S E A} {f' : A → Exec S' E B} {f : A → Exec S E B}
      → Along R m' m
      → ((a : A) → Along R (f' a) (f a))
      → Along R (m' >>= f') (m >>= f)
  unfolding ◌>>=◌
  Along-bind {m' = m'} {m = m} {f' = f'} {f = f} p q = record {
    at = λ s' s h. go (m' s').0 (m s).0 (m' s').1 (m s).1 (p.at s' s h);
  }
    where
      go :
          (r' r : Result E A) (t' : S') (t : S)
          → Both R (r', t') (r, t)
          → Both R (continue r' f' t') (continue r f t)
      go r' (ok a) t' t b = rw b.0 ((q a).at t' t b.1)
      go r' (err e) t' t b = rw b.0 (refl, b.1)
      go r' panic t' t b = rw b.0 (refl, b.1)
      go r' stuck t' t b = rw b.0 (refl, b.1)

-- related, beside a local object that is the same
abbrev pub Beside : {L S' S : Type 0} → (S' → S → Type 0) → L × S' → L × S → Type 0
Beside Q x' x = (x'.0 ≡ x.0) × Q x'.1 x.1

module _ {L S' S E A : Type 0} {R : S' → S → Type 0} where
  pub Along-scoped : (l : L) (m : Exec L E A) → Along {E = E} R (scoped l m) (scoped l m)
  unfolding scoped
  Along-scoped l m = record { at = λ s' s h. (refl, h) }

  pub Along-with_local :
      (l : L) {m' : Exec (L × S') E A} {m : Exec (L × S) E A}
      → Along (Beside R) m' m
      → Along R (with_local l m') (with_local l m)
  unfolding with_local
  Along-with_local l p = record {
    at = λ s' s h. let b = p.at (l, s') (l, s) (refl, h) in (b.0, b.1.1);
  }

  pub Along-on_right :
      {m' : Exec S' E A} {m : Exec S E A}
      → Along R m' m
      → Along (Beside {L = L} R) (on_right m') (on_right m)
  unfolding on_right
  Along-on_right p = record { at = λ s' s h. let b = p.at s'.1 s.1 h.1 in (b.0, (h.0, b.1)) }

module _ {L S' S E A : Type 0} (R : S' → S → Type 0) where
  pub Along-on_left : (m : Exec L E A) → Along (Beside R) (on_left m) (on_left m)
  unfolding on_left
  Along-on_left m = record { at = λ s' s h. (ap (λ l. (m l).0) h.0, (ap (λ l. (m l).1) h.0, h.1)) }
