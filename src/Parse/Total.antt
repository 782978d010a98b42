-- ===== src/Parse/Total.antt =====
-- What every parser owes its caller on any input, well formed or not: it returns (no panic, no loop
-- without end), it leaves the bytes as they are, its cursor only moves forward and stays inside them,
-- and where it succeeds it has read at least a given number of bytes.
use embedded_tls.Prelude.{
  ℕ, zero, suc, ◌+◌, ◌≤◌, ◌<◌, ◌≡◌, refl, ap, ◌∙◌, false, inl, inr, ◌≢◌, Bool-cases, Option-cases,
  List, [], arith, length, length-take, length-drop, drop, get_elem?-lt,
}
use embedded_tls.Exec.{
  Result, ok, err, panic, stuck, Returns, Exec, pure, raise, continue, relabel, map_err, ◌>>=◌,
}
use embedded_tls.Error.{ParseError}
use embedded_tls.Heapless.{Heapless}
use embedded_tls.Parse.{
  ParseBuffer, Read, new, is_empty, slice, index, read_u8, read_u16, read_u24, read_u32, fill,
  within, beside, push_or, read_while, read_list,
}

abbrev pub IsValid : ParseBuffer → Type 0
IsValid p = p.pos ≤ length p.buffer

abbrev pub OnOk : {E A : Type 0} → (A → Type 0) → Result E A → Type 0
OnOk Q (ok a) = Q a
OnOk Q (err e) = Unit
OnOk Q panic = Unit
OnOk Q stuck = Unit

module _ {E A : Type 0} where
  -- `k` bytes at least are read where the run succeeds, with a value in `Q`.
  pub record After (k : ℕ) (Q : A → Type 0) (p : ParseBuffer) (out : Result E A × ParseBuffer)
      : Type 0 where
    pub returns : Returns out.0
    pub same : out.1.buffer ≡ p.buffer
    pub forth : p.pos ≤ out.1.pos
    pub inside : out.1.pos ≤ length p.buffer
    pub eats : OnOk (λ a. (p.pos + k ≤ out.1.pos) × Q a) out.0

  pub record Total (k : ℕ) (Q : A → Type 0) (m : Exec ParseBuffer E A) : Type 0 where
    pub at : (p : ParseBuffer) → IsValid p → After k Q p (m p)

  pub Total-pure : {Q : A → Type 0} (a : A) → Q a → Total 0 Q (pure a)
  unfolding pure
  Total-pure a h = record {
    at = λ p v. record {
      returns = tt;
      same = refl;
      forth = omega arith;
      inside = v;
      eats = (omega arith, h);
    };
  }

  pub Total-raise : {k : ℕ} {Q : A → Type 0} (e : E) → Total k Q (raise e)
  unfolding raise
  Total-raise e = record {
    at = λ p v. record { returns = tt; same = refl; forth = omega arith; inside = v; eats = tt };
  }

  pub OnOk-map : {P Q : A → Type 0} (r : Result E A) → ((a : A) → P a → Q a) → OnOk P r → OnOk Q r
  OnOk-map (ok a) f h = f a h
  OnOk-map (err e) f h = tt
  OnOk-map panic f h = tt
  OnOk-map stuck f h = tt

  pub After-weaken :
      {P Q : A → Type 0} (j k : ℕ) {p : ParseBuffer} {out : Result E A × ParseBuffer}
      → After k P p out
      → j ≤ k
      → ((a : A) → P a → Q a)
      → After j Q p out
  After-weaken {P} {Q} j k {p} {out} s h f = record {
    returns = s.returns;
    same = s.same;
    forth = s.forth;
    inside = s.inside;
    eats =
        OnOk-map {P = λ a. (p.pos + k ≤ out.1.pos) × P a} {Q = λ a. (p.pos + j ≤ out.1.pos) × Q a}
          out.0 (λ a x. (omega arith, f a x.1)) s.eats;
  }

  pub Total-weaken :
      {P Q : A → Type 0} {j k : ℕ} {m : Exec ParseBuffer E A}
      → Total k P m
      → j ≤ k
      → ((a : A) → P a → Q a)
      → Total j Q m
  Total-weaken {j = j} {k = k} t h f = record { at = λ p v. After-weaken j k (t.at p v) h f }

  pub Total-any :
      {P : A → Type 0} {k : ℕ} {m : Exec ParseBuffer E A} → Total k P m → Total 0 (λ a. Unit {0}) m
  Total-any t = Total-weaken t (omega arith) (λ _ _. tt)

module _ {E A B : Type 0} where
  -- The rule for one run: the rest may use what the first part has read.
  pub After-continue :
      {P : A → Type 0} {Q : B → Type 0} (j k : ℕ) (f : A → Exec ParseBuffer E B) (p : ParseBuffer)
      (r : Result E A) (q : ParseBuffer)
      → After j P p (r, q)
      → ((a : A) → P a → IsValid q → q.buffer ≡ p.buffer → p.pos + j ≤ q.pos → After k Q q (f a q))
      → After (j + k) Q p (continue r f q)
  After-continue {Q = Q} j k f p (ok a) q s t =
      let u = t a s.eats.1 (omega (arith, ap length s.same)) s.same s.eats.0 in
      record {
        returns = u.returns;
        same = u.same ∙ s.same;
        forth = omega arith;
        inside = omega (arith, ap length s.same);
        eats =
            OnOk-map {P = λ b. (q.pos + k ≤ (f a q).1.pos) × Q b}
              {Q = λ b. (p.pos + (j + k) ≤ (f a q).1.pos) × Q b} (f a q).0
              (λ b x. (omega arith, x.1)) u.eats;
      }
  After-continue j k f p (err e) q s t = record {
    returns = tt;
    same = s.same;
    forth = s.forth;
    inside = s.inside;
    eats = tt;
  }
  After-continue j k f p panic q s t = absurd s.returns
  After-continue j k f p stuck q s t = absurd s.returns

  pub Total-bind :
      {P : A → Type 0} {Q : B → Type 0} {j k : ℕ} {m : Exec ParseBuffer E A}
      {f : A → Exec ParseBuffer E B}
      → Total j P m
      → ((a : A) → P a → Total k Q (f a))
      → Total (j + k) Q (m >>= f)
  unfolding ◌>>=◌
  Total-bind {j} {k} {m} {f} s t = record {
    at = λ p v. After-continue j k f p (m p).0 (m p).1 (s.at p v) (λ a x w _ _. (t a x).at _ w);
  }

  -- What the rest reads is not counted.
  pub Total-then :
      {P : A → Type 0} {Q : B → Type 0} {j : ℕ} {m : Exec ParseBuffer E A}
      {f : A → Exec ParseBuffer E B}
      → Total j P m
      → ((a : A) → P a → Total 0 Q (f a))
      → Total j Q (m >>= f)
  Total-then s t = Total-weaken (Total-bind s t) (omega arith) (λ _ q. q)

module _ {E F A : Type 0} where
  pub Total-map_err :
      {Q : A → Type 0} {k : ℕ} {m : Exec ParseBuffer E A} (g : E → F)
      → Total k Q m
      → Total k Q (map_err g m)
  unfolding map_err
  Total-map_err {Q} {k} {m} g t = record { at = λ p v. go p (m p).0 (m p).1 (t.at p v) }
    where
      go :
          (p : ParseBuffer) (r : Result E A) (q : ParseBuffer)
          → After k Q p (r, q)
          → After k Q p (relabel g r, q)
      go p (ok a) q s = record {
        returns = tt;
        same = s.same;
        forth = s.forth;
        inside = s.inside;
        eats = s.eats;
      }
      go p (err e) q s = record {
        returns = tt;
        same = s.same;
        forth = s.forth;
        inside = s.inside;
        eats = tt;
      }
      go p panic q s = absurd s.returns
      go p stuck q s = absurd s.returns

index_lem : (p : ParseBuffer) (i : ℕ) → i < length p.buffer → (a : ℕ) × (index i p ≡ (ok a, p))
unfolding index
index_lem p i h = let (a, e) = get_elem?-lt p.buffer i h in (a, rw e)

pub Total-read_u8 : Total 1 (λ n. Unit {0}) read_u8
unfolding read_u8
Total-read_u8 = record { at = λ p v. ground (arith, get_elem?-lt p.buffer p.pos) }

pub Total-read_u16 : Total 2 (λ n. Unit {0}) read_u16
unfolding read_u16
Total-read_u16 = record {
  at = λ p v. ground (arith, get_elem?-lt p.buffer p.pos, get_elem?-lt p.buffer (p.pos + 1));
}

pub Total-read_u24 : Total 3 (λ n. Unit {0}) read_u24
unfolding read_u24
Total-read_u24 = record {
  at = λ p v. ground (
    arith,
    get_elem?-lt p.buffer p.pos,
    get_elem?-lt p.buffer (p.pos + 1),
    get_elem?-lt p.buffer (p.pos + 2),
  );
}

pub Total-read_u32 : Total 4 (λ n. Unit {0}) read_u32
unfolding read_u32
Total-read_u32 = record {
  at = λ p v. ground (
    arith,
    get_elem?-lt p.buffer p.pos,
    get_elem?-lt p.buffer (p.pos + 1),
    get_elem?-lt p.buffer (p.pos + 2),
    get_elem?-lt p.buffer (p.pos + 3),
  );
}

pub Total-slice : (n : ℕ) → Total n IsValid (slice n)
unfolding slice new
Total-slice n = record { at = λ p v. ground arith }

pub Total-fill : (n : ℕ) → Total n (λ bs. length bs ≡ n) (fill n)
unfolding fill
Total-fill n = record {
  at = λ p v. ground (arith, length-take n (drop p.pos p.buffer), length-drop p.pos p.buffer);
}

pub is_empty-false : (p : ParseBuffer) → is_empty p ≡ false → p.pos ≢ length p.buffer
unfolding is_empty
is_empty-false p e = ground arith

module _ {E A : Type 0} where
  -- A parser on a local cursor reads nothing of the caller's.
  pub Total-within :
      {Q : A → Type 0} {k : ℕ} (q : ParseBuffer) (m : Exec ParseBuffer E A)
      → After k Q q (m q)
      → Total 0 (λ x. Q x.0 × IsValid x.1 × (x.1.buffer ≡ q.buffer)) (within q m)
  unfolding within
  Total-within {Q} {k} q m t = record { at = λ p v. go p v (m q).0 (m q).1 t }
    where
      go :
          (p : ParseBuffer) (v : IsValid p) (r : Result E A) (c : ParseBuffer)
          → After k Q q (r, c)
          → After {E = E} {A = A × ParseBuffer} 0
              (λ x. Q x.0 × IsValid x.1 × (x.1.buffer ≡ q.buffer))
              p
              (beside r c, p)
      go p v (ok a) c s = record {
        returns = tt;
        same = refl;
        forth = omega arith;
        inside = v;
        eats = (omega arith, (s.eats.1, omega (arith, ap length s.same), s.same));
      }
      go p v (err e) c s = record {
        returns = tt;
        same = refl;
        forth = omega arith;
        inside = v;
        eats = tt;
      }
      go p v panic c s = absurd s.returns
      go p v stuck c s = absurd s.returns

  pub Total-push_or :
      ⦃h : Heapless⦄ (e : E) (n : ℕ) (xs : List A) (x : A)
      → Total 0 (λ ys. Unit {0}) (push_or ⦃h = h⦄ e n xs x)
  unfolding push_or pure raise
  Total-push_or ⦃h⦄ e n xs x = record {
    at = λ p v. elim (Option-cases (h.push A n xs x)) [
      | inl none_left ↦ rw (none_left, push_or) ((Total-raise e).at p v)
      | inr (ys, some_left) ↦ rw (some_left, push_or) ((Total-pure ys tt).at p v)
    ];
  }

  -- The loop ends within as many rounds as bytes are left.
  pub After-read_while :
      ⦃h : Heapless⦄ {k : ℕ} {Q : A → Type 0} (read : Exec ParseBuffer E A)
      (t : Total (suc k) Q read) (e : E) (n fuel : ℕ) (xs : List A) (p : ParseBuffer)
      → IsValid p
      → length p.buffer ≤ p.pos + fuel
      → After 0 (λ ys. Unit {0}) p (read_while ⦃h = h⦄ read e n fuel xs p)
  unfolding read_while ◌>>=◌
  After-read_while read t e n zero xs p v h = elim (Bool-cases (is_empty p)) [
    | inl done ↦ rw done ((Total-pure xs tt).at p v)
    | inr more ↦ absurd (is_empty-false p more (omega arith))
  ]
  After-read_while ⦃h⦄ {k} {Q} read t e n (suc fuel) xs p v b = elim (Bool-cases (is_empty p)) [
    | inl done ↦ rw done ((Total-pure xs tt).at p v)
    | inr more ↦ rw more (
        After-weaken 0 (suc k + (0 + 0))
          (After-continue (suc k) (0 + 0) _ p (read p).0 (read p).1 (t.at p v) (λ x _ w same far.
            After-continue 0 0 _ _ _ _ ((Total-push_or ⦃h = h⦄ e n xs x).at _ w)
              (λ ys _ u same' far'.
                After-read_while read t e n fuel ys _ u
                  (omega (arith, ap length same, ap length same')))))
          (omega arith) (λ _ _. tt))
  ]

module _ {A : Type 0} where
  -- With an element parser that returns on any input and reads a byte at least where it
  -- succeeds, `read_list` returns on any input: it does not panic or loop, its cursor stays
  -- inside the bytes, and a success has read the announced length.
  pub Total-read_list :
      ⦃h : Heapless⦄ {k : ℕ} {Q : A → Type 0} (n len : ℕ) (read : Read A)
      → Total (suc k) Q read
      → Total len (λ xs. Unit {0}) (read_list ⦃h = h⦄ n len read)
  unfolding read_list
  Total-read_list ⦃h⦄ n len read t =
      Total-weaken
        (Total-bind (Total-slice len) (λ q w.
          Total-bind
            (Total-within q _ (
              After-read_while ⦃h = h⦄ read t ParseError.insufficient_space n (length q.buffer) [] q
                w (omega arith)))
            (λ x _. Total-pure x.0 tt)))
        (omega arith) (λ _ _. tt)
