-- ===== src/Prelude/Overwrite.antt =====
-- Writing a slice over a part of an array. What falls behind the end is dropped; the users show
-- that nothing does.
use Prim.Native.Nat.{ℕ, zero, suc, ◌+◌, ◌≤◌}
use mathlib.Core.Path.{◌≡◌, refl, ap}
use mathlib.Core.List.{List, [], ◌∷◌, ◌++◌}
use native.Mathlib.Omega.{arith}
use embedded_tls.Prelude.Lists.{length, take, drop, length-drop}

module _ {ℓ} {A : Type ℓ} where
  abbrev pub overwrite : List A → ℕ → List A → List A
  overwrite [] i ys = []
  overwrite (x ∷ xs) zero [] = x ∷ xs
  overwrite (x ∷ xs) zero (y ∷ ys) = y ∷ overwrite xs zero ys
  overwrite (x ∷ xs) (suc i) ys = x ∷ overwrite xs i ys

  pub length-overwrite :
      (xs : List A) (i : ℕ) (ys : List A) → length (overwrite xs i ys) ≡ length xs
  length-overwrite [] i ys = refl
  length-overwrite (x ∷ xs) zero [] = refl
  length-overwrite (x ∷ xs) zero (y ∷ ys) = ap suc (length-overwrite xs zero ys)
  length-overwrite (x ∷ xs) (suc i) ys = ap suc (length-overwrite xs i ys)

  pub overwrite-nil : (xs : List A) (i : ℕ) → overwrite xs i [] ≡ xs
  overwrite-nil [] i = refl
  overwrite-nil (x ∷ xs) zero = refl
  overwrite-nil (x ∷ xs) (suc i) = ap (λ t. x ∷ t) (overwrite-nil xs i)

  -- Two slices written one behind the other are one slice.
  pub overwrite-append :
      (xs : List A) (i j : ℕ) (ys zs : List A)
      → j ≡ i + length ys
      → overwrite (overwrite xs i ys) j zs ≡ overwrite xs i (ys ++ zs)
  overwrite-append [] i j ys zs e = refl
  overwrite-append (x ∷ xs) zero zero [] zs e = refl
  overwrite-append (x ∷ xs) zero (suc j) [] zs e = absurd (omega arith)
  overwrite-append (x ∷ xs) zero zero (y ∷ ys) zs e = absurd (omega arith)
  overwrite-append (x ∷ xs) zero (suc j) (y ∷ ys) zs e =
      ap (λ t. y ∷ t) (overwrite-append xs zero j ys zs (omega arith))
  overwrite-append (x ∷ xs) (suc i) zero ys zs e = absurd (omega arith)
  overwrite-append (x ∷ xs) (suc i) (suc j) ys zs e =
      ap (λ t. x ∷ t) (overwrite-append xs i j ys zs (omega arith))

  -- A second write over the front of a first one.
  pub overwrite_again :
      (xs : List A) (i : ℕ) (ys ys' zs : List A)
      → length ys ≡ length ys'
      → overwrite (overwrite xs i (ys ++ zs)) i ys' ≡ overwrite xs i (ys' ++ zs)
  overwrite_again [] i ys ys' zs e = refl
  overwrite_again (x ∷ xs) zero [] [] [] e = refl
  overwrite_again (x ∷ xs) zero [] [] (z ∷ zs) e = refl
  overwrite_again (x ∷ xs) zero [] (y' ∷ ys') zs e = absurd (omega arith)
  overwrite_again (x ∷ xs) zero (y ∷ ys) [] zs e = absurd (omega arith)
  overwrite_again (x ∷ xs) zero (y ∷ ys) (y' ∷ ys') zs e =
      ap (λ t. y' ∷ t) (overwrite_again xs zero ys ys' zs (omega arith))
  overwrite_again (x ∷ xs) (suc i) ys ys' zs e = ap (λ t. x ∷ t) (overwrite_again xs i ys ys' zs e)

  -- What stands in front of a write, with what was written.
  pub take-overwrite :
      (xs : List A) (i n : ℕ) (ys : List A)
      → i + length ys ≤ length xs
      → n ≡ i + length ys
      → take n (overwrite xs i ys) ≡ take i xs ++ ys
  take-overwrite [] zero zero [] h e = refl
  take-overwrite [] zero (suc n) [] h e = absurd (omega arith)
  take-overwrite [] zero n (y ∷ ys) h e = absurd (omega arith)
  take-overwrite [] (suc i) n ys h e = absurd (omega arith)
  take-overwrite (x ∷ xs) zero zero [] h e = refl
  take-overwrite (x ∷ xs) zero (suc n) [] h e = absurd (omega arith)
  take-overwrite (x ∷ xs) zero zero (y ∷ ys) h e = absurd (omega arith)
  take-overwrite (x ∷ xs) zero (suc n) (y ∷ ys) h e =
      ap (λ t. y ∷ t) (take-overwrite xs zero n ys (omega arith) (omega arith))
  take-overwrite (x ∷ xs) (suc i) zero ys h e = absurd (omega arith)
  take-overwrite (x ∷ xs) (suc i) (suc n) ys h e =
      ap (λ t. x ∷ t) (take-overwrite xs i n ys (omega arith) (omega arith))

  -- Nothing in front of a write changes, and nothing behind it.
  pub take_before-overwrite :
      (xs : List A) (i n : ℕ) (ys : List A) → n ≤ i → take n (overwrite xs i ys) ≡ take n xs
  take_before-overwrite xs i zero ys h = refl
  take_before-overwrite [] i (suc n) ys h = refl
  take_before-overwrite (x ∷ xs) zero (suc n) ys h = absurd (omega arith)
  take_before-overwrite (x ∷ xs) (suc i) (suc n) ys h =
      ap (λ t. x ∷ t) (take_before-overwrite xs i n ys (omega arith))

  pub drop-overwrite :
      (xs : List A) (i n : ℕ) (ys : List A)
      → i + length ys ≤ n
      → drop n (overwrite xs i ys) ≡ drop n xs
  drop-overwrite [] i n ys h = refl
  drop-overwrite (x ∷ xs) zero n [] h = refl
  drop-overwrite (x ∷ xs) zero zero (y ∷ ys) h = absurd (omega arith)
  drop-overwrite (x ∷ xs) zero (suc n) (y ∷ ys) h = drop-overwrite xs zero n ys (omega arith)
  drop-overwrite (x ∷ xs) (suc i) zero ys h = absurd (omega arith)
  drop-overwrite (x ∷ xs) (suc i) (suc n) ys h = drop-overwrite xs i n ys (omega arith)

  -- A write behind a front that is cut off.
  pub drop_front-overwrite :
      (xs : List A) (i j k : ℕ) (ys : List A)
      → k ≡ i + j
      → drop i (overwrite xs k ys) ≡ overwrite (drop i xs) j ys
  drop_front-overwrite xs zero j k ys e = ap (λ n. overwrite xs n ys) (omega arith)
  drop_front-overwrite [] (suc i) j k ys e = refl
  drop_front-overwrite (x ∷ xs) (suc i) j zero ys e = absurd (omega arith)
  drop_front-overwrite (x ∷ xs) (suc i) j (suc k) ys e =
      drop_front-overwrite xs i j k ys (omega arith)

  -- A second write that covers a first one.
  pub overwrite_covered :
      (xs : List A) (i : ℕ) (ys zs : List A)
      → length ys ≤ length zs
      → overwrite (overwrite xs i ys) i zs ≡ overwrite xs i zs
  overwrite_covered [] i ys zs h = refl
  overwrite_covered (x ∷ xs) zero [] zs h = refl
  overwrite_covered (x ∷ xs) zero (y ∷ ys) [] h = absurd (omega arith)
  overwrite_covered (x ∷ xs) zero (y ∷ ys) (z ∷ zs) h =
      ap (λ t. z ∷ t) (overwrite_covered xs zero ys zs (omega arith))
  overwrite_covered (x ∷ xs) (suc i) ys zs h = ap (λ t. x ∷ t) (overwrite_covered xs i ys zs h)

  -- A write behind `front` that covers what follows it.
  pub overwrite_rest :
      (xs front bs cs : List A) (n : ℕ)
      → n ≡ length front
      → length bs ≤ length cs
      → overwrite (overwrite xs 0 (front ++ bs)) n cs ≡ overwrite xs 0 (front ++ cs)
  overwrite_rest xs front bs cs n e h =
      rw
        (
          ← overwrite-append xs 0 n front bs (omega arith),
          overwrite_covered (overwrite xs 0 front) n bs cs h,
        )
        (overwrite-append xs 0 n front cs (omega arith))

  pub take-drop-overwrite :
      (xs front bs : List A) (n : ℕ)
      → n ≡ length front
      → n + length bs ≤ length xs
      → take (length bs) (drop n (overwrite xs 0 (front ++ bs))) ≡ bs
  take-drop-overwrite xs front bs n e h =
      rw
        (
          ← overwrite-append xs 0 n front bs (omega arith),
          drop_front-overwrite (overwrite xs 0 front) n 0 n bs (omega arith),
        )
        (take-overwrite (drop n (overwrite xs 0 front)) 0 (length bs) bs
          (omega (arith, length-drop n (overwrite xs 0 front), length-overwrite xs 0 front))
          (omega arith))

  -- A part of what was written is written again.
  pub overwrite_patch :
      (xs front ys ys' zs : List A) (n : ℕ)
      → n ≡ length front
      → length ys ≡ length ys'
      → overwrite (overwrite xs 0 (front ++ (ys ++ zs))) n ys'
        ≡ overwrite xs 0 (front ++ (ys' ++ zs))
  overwrite_patch xs front ys ys' zs n e same =
      rw
        (
          ← overwrite-append xs 0 n front (ys ++ zs) (omega arith),
          overwrite_again (overwrite xs 0 front) n ys ys' zs same,
        )
        (overwrite-append xs 0 n front (ys' ++ zs) (omega arith))
