-- ===== src/Exec.antt =====
-- How the code's functions return, and functions that change an object and may fail.
-- `panic` is a Rust panic (an index out of range, an `unwrap` of nothing, an arithmetic overflow
-- that debug builds trap). `stuck` is no Rust value: a loop of the model ran out of its fuel.
-- What was written before an error stays written, so the object comes back beside the result.
use embedded_tls.Prelude.{
  ◌≡◌, refl, sym, ap, subst, ◌∙◌, ℕ, ◌-◌, Option, none, some, leb, if◌then◌else◌, List, [], ◌∷◌,
}

pub data Result {ℓ} (E A : Type ℓ) : Type ℓ where
  ok : A → Result E A
  err : E → Result E A
  panic : Result E A
  stuck : Result E A

-- The function returned: with a value or with an error.
abbrev pub Returns {ℓ} : {E A : Type ℓ} → Result E A → Type 0
Returns (ok a) = Unit
Returns (err e) = Unit
Returns panic = ⊥
Returns stuck = ⊥

abbrev pub IsErr {ℓ} : {E A : Type ℓ} → Result E A → Type 0
IsErr (ok a) = ⊥
IsErr (err e) = Unit
IsErr panic = ⊥
IsErr stuck = ⊥

abbrev pub Exec {ℓ} : Type ℓ → Type ℓ → Type ℓ → Type ℓ
Exec S E A = S → Result E A × S

module _ {ℓ} {S E A : Type ℓ} where
  unfoldable pub pure : A → Exec S E A
  pure a s = (ok a, s)

  unfoldable pub raise : E → Exec S E A
  raise e s = (err e, s)

  unfoldable pub gets : (S → A) → Exec S E A
  gets f s = (ok (f s), s)

  -- A value that is not there: an index out of range, an `unwrap` of `None`.
  unfoldable pub unwrap : Option A → Exec S E A
  unwrap none s = (panic, s)
  unwrap (some a) s = (ok a, s)

module _ {ℓ} {S E A : Type ℓ} where
  -- a result that was computed without the object
  abbrev pub outcome : Result E A → Exec S E A
  outcome r s = (r, s)

module _ {ℓ} {E F A : Type ℓ} where
  abbrev pub relabel : (E → F) → Result E A → Result F A
  relabel f (ok a) = ok a
  relabel f (err e) = err (f e)
  relabel f panic = panic
  relabel f stuck = stuck

module _ {ℓ} {S E F A : Type ℓ} where
  -- `map_err`, and the `?` that turns one error into another
  unfoldable pub map_err : (E → F) → Exec S E A → Exec S F A
  map_err f m s = let (r, s') = m s in (relabel f r, s')

module _ {ℓ} {E A : Type ℓ} where
  abbrev value_or : A → Result E A → A
  value_or d (ok a) = a
  value_or d (err _) = d
  value_or d panic = d
  value_or d stuck = d

  pub ok-injective : {a b : A} → ◌≡◌ {A = Result E A} (ok a) (ok b) → a ≡ b
  ok-injective {a} p = ap (value_or a) p

module _ {E A : Type 0} where
  abbrev IsOk : Result E A → Type 0
  IsOk (ok a) = Unit
  IsOk _ = ⊥

  pub err_not_ok : {e : E} {a : A} → ¬ (◌≡◌ {A = Result E A} (err e) (ok a))
  err_not_ok p = subst IsOk (sym p) tt

module _ {ℓ} {S E A : Type ℓ} where
  pub returned-injective :
      {a b : A} {s t : S} → ◌≡◌ {A = Result E A × S} (ok a, s) (ok b, t) → a ≡ b
  returned-injective p = ok-injective (ap (λ o. o.0) p)

module _ {ℓ} {S E A B : Type ℓ} where
  abbrev pub continue : Result E A → (A → Exec S E B) → Exec S E B
  continue (ok a) f s = f a s
  continue (err e) f s = (err e, s)
  continue panic f s = (panic, s)
  continue stuck f s = (stuck, s)

  infixl 5 ◌>>=◌ ◌>>◌
  -- Opening this opens the actions above too.
  unfoldable pub ◌>>=◌ : Exec S E A → (A → Exec S E B) → Exec S E B
  unfolding pure raise gets unwrap map_err
  ◌>>=◌ m f s = let (r, s') = m s in continue r f s'

  abbrev pub ◌>>◌ : Exec S E A → Exec S E B → Exec S E B
  m >> n = m >>= λ _. n

module _ {ℓ} {S E A B : Type ℓ} where
  -- What follows a part that succeeds.
  pub bind_ok :
      {s s' : S} {a : A} (m : Exec S E A) (f : A → Exec S E B)
      → m s ≡ (ok a, s')
      → (m >>= f) s ≡ f a s'
  unfolding ◌>>=◌
  bind_ok m f e = rw e

  -- a part that succeeds, and what follows it
  pub then_ok :
      {s s' : S} {a : A} {r : Result E B × S} (m : Exec S E A) (f : A → Exec S E B)
      → m s ≡ (ok a, s')
      → f a s' ≡ r
      → (m >>= f) s ≡ r
  then_ok m f p q = bind_ok m f p ∙ q

  -- What follows a part that fails is not run.
  pub bind_err :
      {s s' : S} {e : E} (m : Exec S E A) (f : A → Exec S E B)
      → m s ≡ (err e, s')
      → (m >>= f) s ≡ (err e, s')
  unfolding ◌>>=◌
  bind_err m f p = rw p

  -- What came before a success succeeded too.
  pub bind-returned :
      {b : B} {s s'' : S} (m : Exec S E A) (f : A → Exec S E B)
      → (m >>= f) s ≡ (ok b, s'')
      → (a : A) × (s' : S) × (m s ≡ (ok a, s')) × (f a s' ≡ (ok b, s''))
  unfolding ◌>>=◌
  bind-returned {b} {s} {s''} m f p = go (m s).0 (m s).1 refl p
    where
      go :
          (r : Result E A) (t : S)
          → m s ≡ (r, t)
          → continue r f t ≡ (ok b, s'')
          → (a : A) × (s' : S) × (m s ≡ (ok a, s')) × (f a s' ≡ (ok b, s''))
      go (ok a) t q p = (a, t, q, p)
      go (err _) t q p = cc
      go panic t q p = cc
      go stuck t q p = cc

module _ {S E : Type 0} where
  -- `a - b` on an unsigned integer.
  unfoldable pub sub : ℕ → ℕ → Exec S E ℕ
  sub a b s = if leb b a then (ok (a - b), s) else (panic, s)

module _ {S T E A : Type 0} where
  -- an action on one of two objects
  unfoldable pub on_left : Exec S E A → Exec (S × T) E A
  on_left m (s, t) = let (r, s') = m s in (r, (s', t))

  unfoldable pub on_right : Exec T E A → Exec (S × T) E A
  on_right m (s, t) = let (r, t') = m t in (r, (s, t'))

  -- an action on a local object beside the one that stays
  unfoldable pub with_local : S → Exec (S × T) E A → Exec T E A
  with_local s m t = let (r, (s', t')) = m (s, t) in (r, t')

  pub on_left_ok :
      {s s' : S} {a : A} (m : Exec S E A) (x : T)
      → m s ≡ (ok a, s')
      → on_left m (s, x) ≡ (ok a, (s', x))
  unfolding on_left
  on_left_ok m x p = rw p

module _ {L E A : Type 0} where
  abbrev pub paired : Result E A → L → Result E (A × L)
  paired (ok a) l = ok (a, l)
  paired (err e) l = err e
  paired panic l = panic
  paired stuck l = stuck

module _ {L S E A : Type 0} where
  -- an action on an object of its own, which comes beside the result
  unfoldable pub scoped : L → Exec L E A → Exec S E (A × L)
  scoped l m s = let (r, l') = m l in (paired r l', s)

module _ {A S E : Type 0} where
  -- `for x in xs { f(x)?; }`
  unfoldable pub for_each : (A → Exec S E (Unit {0})) → List A → Exec S E (Unit {0})
  for_each f [] = pure tt
  for_each f (x ∷ xs) = f x >> for_each f xs
