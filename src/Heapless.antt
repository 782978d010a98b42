-- ===== src/Heapless.antt =====
-- What the code relies on of the crate `heapless`: `Vec<T, N>`, a vector of at most `N` elements,
-- taken as the list of its elements. `push` gives the element back (here: nothing) where the vector is
-- full, and appends it otherwise. `extend_from_slice` appends all of a slice or fails. `resize` cuts the
-- vector or fills it up to the new length, or fails where that is over the capacity.
use embedded_tls.Prelude.{
  ◌+◌, ◌-◌, ℕ, ◌≤◌, ◌<◌, ◌≡◌, List, [], ◌∷◌, ◌++◌, Option, none, some, arith, length, take,
  replicate, ltb, if◌then◌else◌,
}

pub record Heapless : Type 1 where
  pub push : (A : Type 0) → ℕ → List A → A → Option (List A)
  pub push_ok :
      (A : Type 0) (n : ℕ) (xs : List A) (x : A)
      → length xs < n
      → push A n xs x ≡ some (xs ++ (x ∷ []))
  pub push_full : (A : Type 0) (n : ℕ) (xs : List A) (x : A) → n ≤ length xs → push A n xs x ≡ none
  pub extend : (A : Type 0) → ℕ → List A → List A → Option (List A)
  pub extend_ok :
      (A : Type 0) (n : ℕ) (xs ys : List A)
      → length xs + length ys ≤ n
      → extend A n xs ys ≡ some (xs ++ ys)
  pub extend_full :
      (A : Type 0) (n : ℕ) (xs ys : List A) → n < length xs + length ys → extend A n xs ys ≡ none
  pub resize : (A : Type 0) → ℕ → List A → ℕ → A → Option (List A)
  pub resize_ok :
      (A : Type 0) (n : ℕ) (xs : List A) (new_len : ℕ) (x : A)
      → new_len ≤ n
      → resize A n xs new_len x ≡ some (take new_len xs ++ replicate (new_len - length xs) x)
  pub resize_full :
      (A : Type 0) (n : ℕ) (xs : List A) (new_len : ℕ) (x : A)
      → n < new_len
      → resize A n xs new_len x ≡ none

-- A vector as the crate documents it.
abbrev pub bounded_push : (A : Type 0) → ℕ → List A → A → Option (List A)
bounded_push A n xs x = if ltb (length xs) n then some (xs ++ (x ∷ [])) else none

pub bounded_push_ok :
    (A : Type 0) (n : ℕ) (xs : List A) (x : A)
    → length xs < n
    → bounded_push A n xs x ≡ some (xs ++ (x ∷ []))
bounded_push_ok A n xs x h = ground arith

pub bounded_push_full :
    (A : Type 0) (n : ℕ) (xs : List A) (x : A) → n ≤ length xs → bounded_push A n xs x ≡ none
bounded_push_full A n xs x h = ground arith

abbrev pub bounded_extend : (A : Type 0) → ℕ → List A → List A → Option (List A)
bounded_extend A n xs ys = if ltb n (length xs + length ys) then none else some (xs ++ ys)

pub bounded_extend_ok :
    (A : Type 0) (n : ℕ) (xs ys : List A)
    → length xs + length ys ≤ n
    → bounded_extend A n xs ys ≡ some (xs ++ ys)
bounded_extend_ok A n xs ys h = ground arith

pub bounded_extend_full :
    (A : Type 0) (n : ℕ) (xs ys : List A)
    → n < length xs + length ys
    → bounded_extend A n xs ys ≡ none
bounded_extend_full A n xs ys h = ground arith

abbrev pub bounded_resize : (A : Type 0) → ℕ → List A → ℕ → A → Option (List A)
bounded_resize A n xs new_len x =
    if ltb n new_len then none else some (take new_len xs ++ replicate (new_len - length xs) x)

pub bounded_resize_ok :
    (A : Type 0) (n : ℕ) (xs : List A) (new_len : ℕ) (x : A)
    → new_len ≤ n
    → bounded_resize A n xs new_len x ≡ some (take new_len xs ++ replicate (new_len - length xs) x)
bounded_resize_ok A n xs new_len x h = ground arith

pub bounded_resize_full :
    (A : Type 0) (n : ℕ) (xs : List A) (new_len : ℕ) (x : A)
    → n < new_len
    → bounded_resize A n xs new_len x ≡ none
bounded_resize_full A n xs new_len x h = ground arith

instance abbrev pub bounded : Heapless
bounded = record {
  push = bounded_push;
  push_ok = bounded_push_ok;
  push_full = bounded_push_full;
  extend = bounded_extend;
  extend_ok = bounded_extend_ok;
  extend_full = bounded_extend_full;
  resize = bounded_resize;
  resize_ok = bounded_resize_ok;
  resize_full = bounded_resize_full;
}
