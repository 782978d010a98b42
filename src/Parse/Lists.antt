-- ===== src/Parse/Lists.antt =====
-- Reading back a list of encoded elements by `read_list`.
use mathlib.Core.List.{flat_map}
use embedded_tls.Prelude.{
  ℕ, zero, suc, ◌+◌, ◌≤◌, ◌<◌, ◌≡◌, ap, ◌∙◌, List, [], ◌∷◌, ◌++◌, append-nil, append_assoc, arith,
  length, length-append, All, true, false,
}
use embedded_tls.Exec.{ok, Exec, pure, ◌>>=◌, bind_ok}
use embedded_tls.Error.{ParseError}
use embedded_tls.Heapless.{Heapless}
use embedded_tls.Parse.{ParseBuffer, Read, new, is_empty, within, push_or, read_while, read_list}
use embedded_tls.Parse.Parses.{at, Parses, Parses-slice}

is_empty_at : (front : List ℕ) → is_empty (at front []) ≡ true
unfolding is_empty
is_empty_at front = ground (arith, ap length (append-nil front))

not_empty_at : (front bs : List ℕ) → 0 < length bs → is_empty (at front bs) ≡ false
unfolding is_empty
not_empty_at front bs h = ground (arith, length-append front bs)

module _ {E A : Type 0} ⦃h : Heapless⦄ where
  push_or_lem :
      (e : E) (n : ℕ) (done : List A) (x : A) (q : ParseBuffer)
      → length done < n
      → push_or ⦃h = h⦄ e n done x q ≡ (ok (done ++ (x ∷ [])), q)
  unfolding push_or
  push_or_lem e n done x q lt = rw (h.push_ok A n done x lt, push_or)

  -- The loop takes up the elements one by one.
  read_while-flat_map :
      (read : Exec ParseBuffer E A) (enc : A → List ℕ)
      → ((a : A) → 0 < length (enc a))
      → (e : E) (n fuel : ℕ) (done xs : List A) (front : List ℕ)
      → All (λ a. Parses read a (enc a)) xs
      → length done + length xs ≤ n
      → length xs ≤ fuel
      → read_while read e n fuel done (at front (flat_map enc xs))
        ≡ (ok (done ++ xs), at (front ++ flat_map enc xs) [])
  unfolding read_while flat_map
  read_while-flat_map read enc some_byte e n zero done [] front p hn hf =
      rw (is_empty_at, append-nil done, append-nil front, append-nil front)
  read_while-flat_map read enc some_byte e n (suc fuel) done [] front p hn hf =
      rw (is_empty_at, append-nil done, append-nil front, append-nil front)
  read_while-flat_map read enc some_byte e n zero done (x ∷ xs) front p hn hf = absurd (omega arith)
  read_while-flat_map read enc some_byte e n (suc fuel) done (x ∷ xs) front (p, ps) hn hf =
      let more = length-append (enc x) (flat_map enc xs) in
      rw (not_empty_at front (enc x ++ flat_map enc xs) (omega (arith, some_byte x, more))) (
        bind_ok read _ (p.run front (flat_map enc xs))
        ∙ bind_ok (push_or e n done x) _ (push_or_lem e n done x _ (omega arith))
        ∙ read_while-flat_map read enc some_byte e n fuel (done ++ (x ∷ [])) xs (front ++ enc x) ps
            (omega (arith, length-append done (x ∷ []))) (omega arith)
        ∙ rw (append_assoc done (x ∷ []) xs, append_assoc front (enc x) (flat_map enc xs)))

module _ {A : Type 0} ⦃h : Heapless⦄ where
  length-flat_map :
      (enc : A → List ℕ) (xs : List A)
      → ((a : A) → 0 < length (enc a))
      → length xs ≤ length (flat_map enc xs)
  unfolding flat_map
  length-flat_map enc [] b = omega arith
  length-flat_map enc (x ∷ xs) b =
      omega (arith, b x, length-flat_map enc xs b, length-append (enc x) (flat_map enc xs))

  -- `read_list` reads back a list of elements from their concatenated encodings, whatever
  -- follows, where the element parser reads back each element, no encoding is empty, and the
  -- list is no longer than the capacity of the vector.
  pub Parses-read_list :
      (n : ℕ) (read : Read A) (enc : A → List ℕ) (xs : List A)
      → All (λ a. Parses read a (enc a)) xs
      → ((a : A) → 0 < length (enc a))
      → length xs ≤ n
      → Parses (read_list n (length (flat_map enc xs)) read) xs (flat_map enc xs)
  unfolding read_list ◌>>=◌ within new pure
  Parses-read_list n read enc xs p some_byte hn = record {
    run = λ front rest. rw (
      (Parses-slice (flat_map enc xs)).run front rest,
      read_while-flat_map read enc some_byte ParseError.insufficient_space n
          (length (flat_map enc xs)) [] xs [] p (omega arith) (length-flat_map enc xs some_byte),
    );
  }
