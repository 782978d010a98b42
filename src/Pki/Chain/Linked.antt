-- ===== src/Pki/Chain/Linked.antt =====
-- src/pki.rs: what the loop over a chain of certificates has checked.
use embedded_tls.Prelude.{
  ℕ, zero, suc, ◌==◌, false, ◌≡◌, ◌≤◌, ◌-◌, ◌<◌, refl, sym, ap, ◌∙◌, Option, some, List, [], ◌∷◌,
  length, drop, get_elem?, arith,
}
use embedded_tls.Exec.{
  Result, Exec, ok, err, panic, stuck, pure, continue, bind-returned, returned-injective, ◌>>=◌,
}
use embedded_tls.Error.{TlsError}
use embedded_tls.Handshake.Certificate.{CertificateEntry}
use embedded_tls.Pki.Hostname.{CertificateNames}
use embedded_tls.Pki.Chain.{next, nameless, check_now, for_item, walk, walk_chain}

-- What signs a certificate: the next of the list, or the authority behind the last.
abbrev pub issuer : CertificateEntry → List CertificateEntry → CertificateEntry
issuer ca [] = ca
issuer ca (q ∷ qs) = q

drop-cons :
    {A : Type 0} (k : ℕ) (xs : List A)
    → k < length xs
    → (x : A) × (get_elem? xs k ≡ some x) × (drop k xs ≡ x ∷ drop (suc k) xs)
drop-cons k [] h = absurd (omega arith)
drop-cons zero (x ∷ xs) h = (x, refl, refl)
drop-cons (suc k) (x ∷ xs) h = drop-cons k xs (omega arith)

drop_all : {A : Type 0} (xs : List A) → drop (length xs) xs ≡ []
drop_all [] = refl
drop_all (x ∷ xs) = drop_all xs

bind_assoc :
    {S E A B C : Type 0} (m : Exec S E A) (f : A → Exec S E B) (g : B → Exec S E C) (s : S)
    → (m >>= λ a. f a >>= g) s ≡ ((m >>= f) >>= g) s
unfolding ◌>>=◌
bind_assoc {S} {E} {A} {B} {C} m f g s = go (m s).0 (m s).1
  where
    go :
        (r : Result E A) (t : S)
        → continue r (λ a. f a >>= g) t ≡ continue (continue r f t).0 g (continue r f t).1
    go (ok a) t = refl
    go (err _) t = refl
    go panic t = refl
    go stuck t = refl

module _ {S E A B : Type 0} where
  bind_cong :
      (m : Exec S E A) (f g : A → Exec S E B) (s : S)
      → ((a : A) (t : S) → f a t ≡ g a t)
      → (m >>= f) s ≡ (m >>= g) s
  unfolding ◌>>=◌
  bind_cong m f g s h = go (m s).0 (m s).1
    where
      go : (r : Result E A) (t : S) → continue r f t ≡ continue r g t
      go (ok a) t = h a t
      go (err _) t = refl
      go panic t = refl
      go stuck t = refl

bind_pure : {S E A : Type 0} (m : Exec S E A) (s : S) → (m >>= λ a t. (ok a, t)) s ≡ m s
unfolding ◌>>=◌
bind_pure {S} {E} {A} m s = go (m s).0 (m s).1
  where
    go : (r : Result E A) (t : S) → continue r (λ a u. (ok a, u)) t ≡ (r, t)
    go (ok a) t = refl
    go (err _) t = refl
    go panic t = refl
    go stuck t = refl

next-suc :
    {x : CertificateEntry} (k : ℕ) (prev : CertificateEntry) (xs : List CertificateEntry)
    → get_elem? xs k ≡ some x
    → next (record { prev = prev; chain = xs; remaining = suc k })
      ≡ (ok (some (prev, x)), record { prev = x; chain = xs; remaining = k })
unfolding next
next-suc {x} k prev xs e =
    let z : (suc k == 0) ≡ false = ground arith in
    let p : suc k - 1 ≡ k = omega arith in
    rw (z, p, e) (ap (λ j. (ok (some (prev, x)), record { prev = x; chain = xs; remaining = j })) p)

module _ {S : Type 0} (now : S → Option ℕ × S)
    (check : CertificateEntry
      → CertificateEntry
      → Option ℕ
      → Result TlsError CertificateNames) where
  -- The checks of a list of certificates: first those that come later in it, then the first with
  -- the key of the second.
  pub checks : CertificateEntry → List CertificateEntry → Exec S TlsError CertificateNames
  checks ca [] = pure nameless
  checks ca (q ∷ qs) = checks ca qs >>= λ _. check_now now check (issuer ca qs) q

  -- The last of the list was checked with the key of the authority, each other with the key of the
  -- one behind it, at some time of the clock, and `names` are those that the check of the first gave.
  abbrev pub Linked : CertificateEntry → List CertificateEntry → CertificateNames → Type 0
  Linked ca [] names = names ≡ nameless
  Linked ca (q ∷ qs) names =
      ((time : Option ℕ) × (check (issuer ca qs) q time ≡ ok names))
      × ((m : CertificateNames) × Linked ca qs m)

  abbrev walk_at :
      ℕ
      → CertificateEntry
      → List CertificateEntry
      → CertificateNames
      → Exec S TlsError CertificateNames
  walk_at k prev xs m = walk now check (suc k) (record { prev = prev; chain = xs; remaining = k }) m

  walk-zero :
      (prev : CertificateEntry) (xs : List CertificateEntry) (m : CertificateNames) (s : S)
      → walk_at 0 prev xs m s ≡ (ok m, s)
  unfolding walk next
  walk-zero prev xs m s = refl

  walk-suc :
      {x : CertificateEntry} (k : ℕ) (prev : CertificateEntry) (xs : List CertificateEntry)
      (m : CertificateNames) (s : S)
      → get_elem? xs k ≡ some x
      → walk_at (suc k) prev xs m s ≡ (check_now now check prev x >>= walk_at k x xs) s
  unfolding walk
  walk-suc k prev xs m s e =
      ap
        (λ r.
          for_item now check r.0 m
            (λ p q. check_now now check p q >>= λ found. walk now check (suc k) r.1 found) s)
        (next-suc k prev xs e)

  checks_cons :
      (ca x : CertificateEntry) (rest : List CertificateEntry)
      (f : CertificateNames → Exec S TlsError CertificateNames) (s : S)
      → ((checks ca rest >>= λ _. check_now now check (issuer ca rest) x) >>= f) s
        ≡ (checks ca (x ∷ rest) >>= f) s
  unfolding checks
  checks_cons ca x rest f s = refl

  checks_nil :
      (ca : CertificateEntry) (f : CertificateNames → Exec S TlsError CertificateNames) (s : S)
      → f nameless s ≡ (checks ca [] >>= f) s
  unfolding checks pure ◌>>=◌
  checks_nil ca f s = refl

  walk_rest :
      (ca : CertificateEntry) (xs : List CertificateEntry) (k : ℕ) (s : S)
      → k ≤ length xs
      → (checks ca (drop k xs) >>= walk_at k (issuer ca (drop k xs)) xs) s ≡ checks ca xs s
  walk_rest ca xs zero s h =
      bind_cong (checks ca xs) _ _ s (walk-zero (issuer ca xs) xs) ∙ bind_pure (checks ca xs) s
  walk_rest ca xs (suc k) s h =
      let (x, at, split) = drop-cons k xs (omega arith) in
      let rest = drop (suc k) xs in
      bind_cong (checks ca rest) _ _ s (λ m t. walk-suc k (issuer ca rest) xs m t at)
      ∙ bind_assoc (checks ca rest) (λ _. check_now now check (issuer ca rest) x) (walk_at k x xs) s
      ∙ checks_cons ca x rest (walk_at k x xs) s
      ∙ ap (λ ys. (checks ca ys >>= walk_at k (issuer ca ys) xs) s) (sym split)
      ∙ walk_rest ca xs k s (omega arith)

  -- The loop over a `CertificateChain`, on as much fuel as there are certificates and one,
  -- gives what the checks of the list give, those that come later in it first and each with
  -- the key of the one behind it or of the authority: an index is never out of range, and the
  -- fuel is enough.
  pub walk_chain_lem :
      (ca : CertificateEntry) (entries : List CertificateEntry) (s : S)
      → walk_chain now check ca entries s ≡ checks ca entries s
  unfolding walk_chain
  walk_chain_lem ca entries s =
      let n = length entries in
      checks_nil ca (walk_at n ca entries) s
      ∙ ap (λ ys. (checks ca ys >>= walk_at n (issuer ca ys) entries) s) (sym (drop_all entries))
      ∙ walk_rest ca entries n s (omega arith)

  pub checks-Linked :
      (ca : CertificateEntry) (entries : List CertificateEntry) {names : CertificateNames}
      (s s' : S)
      → checks ca entries s ≡ (ok names, s')
      → Linked ca entries names
  unfolding checks check_now pure
  checks-Linked ca [] s s' p = sym (returned-injective p)
  checks-Linked ca (q ∷ qs) s s' p =
      let (m, t, p1, p2) = bind-returned (checks ca qs) _ p in
      (((now t).0, ap (λ o. o.0) p2), (m, checks-Linked ca qs s t p1))
