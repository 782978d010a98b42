-- ===== src/KeySchedule/Secrets/Expand.antt =====
-- `make_expanded_hkdf_label` against the HkdfLabel of RFC 8446, section 7.1.
use embedded_tls.Prelude.{
  ℕ, ◌+◌, ◌*◌, ◌≤◌, ◌≡◌, refl, ap, ◌∙◌, List, [], ◌∷◌, ◌++◌, append_assoc, Option, none, some,
  arith, length, length-append,
}
use embedded_tls.Prelude.Words.{as_u8, be16}
use embedded_tls.Exec.{raise, err, ok, pure, bind_ok, bind_err, then_ok, ◌>>=◌}
use embedded_tls.Error.{internal_error, crypto_error}
use embedded_tls.Heapless.{Heapless}
use embedded_tls.Suite.{Suite}
use embedded_tls.KeySchedule.Labels.{tls13}
use embedded_tls.KeySchedule.Secrets.{
  ContextType, no_context, hash, require, hash_len, extend_label, label_length, push_context,
  hkdf_label, make_expanded_hkdf_label,
}

-- the context behind its length
abbrev pub context_bytes : ContextType → List ℕ
context_bytes no_context = 0 ∷ []
context_bytes (hash context) = length context ∷ context

-- struct { uint16 length; opaque label<7..255> = "tls13 " + Label; opaque context<0..255>; } HkdfLabel
abbrev pub label_bytes : ℕ → List ℕ → ContextType → List ℕ
label_bytes n label context =
    be16 n ++ ((6 + length label) ∷ (tls13 ++ (label ++ context_bytes context)))

-- A context is nothing or a hash.
abbrev pub IsHash : Suite → ContextType → Type 0
IsHash c no_context = Unit
IsHash c (hash context) = length context ≡ hash_len c

module _ (c : Suite) where
  -- the derivation of RFC 8446, section 7.1
  abbrev pub expand_label : List ℕ → ℕ → List ℕ → ContextType → List ℕ
  expand_label prk n label context = c.hkdf.okm prk (label_bytes n label context) n

pub require-some :
    {S E A : Type 0} (e : E) {o : Option A} {a : A} (s : S) → o ≡ some a → require e o s ≡ (ok a, s)
unfolding require pure
require-some e s p = rw p

pub require-none :
    {S E A : Type 0} (e : E) {o : Option A} (s : S) → o ≡ none → require e o s ≡ (err e, s)
unfolding require raise
require-none e s p = rw p

module _ ⦃h : Heapless⦄ (c : Suite) {S : Type 0} (s : S) where
  extend_label_lem :
      (xs ys : List ℕ)
      → length xs + length ys ≤ hash_len c + 22
      → extend_label c xs ys s ≡ (ok (xs ++ ys), s)
  unfolding extend_label
  extend_label_lem xs ys fits =
      require-some internal_error s (h.extend_ok ℕ (hash_len c + 22) xs ys fits)

  label_length_lem :
      (label : List ℕ) → length label ≤ 12 → label_length c label s ≡ (ok (6 + length label), s)
  unfolding label_length
  label_length_lem label short = ground arith

  push_context_lem :
      (xs : List ℕ) (context : ContextType)
      → IsHash c context
      → length xs ≤ 21
      → push_context c xs context s ≡ (ok (xs ++ context_bytes context), s)
  unfolding push_context
  push_context_lem xs no_context valid room =
      require-some internal_error s (h.push_ok ℕ (hash_len c + 22) xs 0 (omega arith))
  push_context_lem xs (hash context) valid room =
      let small = c.digest.output_size_small in
      let len = as_u8 (length context) ∷ [] in
      bind_ok (extend_label c xs len) (λ l. extend_label c l context)
        (extend_label_lem xs len (omega arith))
      ∙ extend_label_lem (xs ++ len) context (omega (arith, length-append xs len))
      ∙ ap (λ t. (ok t, s))
          (append_assoc xs len context ∙ ap (λ n. xs ++ (n ∷ context)) (omega arith))

  -- The buffer has room for every label of the key schedule.
  hkdf_label_lem :
      (n : ℕ) (label : List ℕ) (context : ContextType)
      → length label ≤ 12
      → IsHash c context
      → hkdf_label c n label context s ≡ (ok (label_bytes n label context), s)
  unfolding hkdf_label
  hkdf_label_lem n label context short valid =
      let a = be16 n in
      let b = a ++ ((6 + length label) ∷ []) in
      let d = b ++ tls13 in
      let e = d ++ label in
      bind_ok (extend_label c [] a) _ (extend_label_lem [] a (omega arith))
      ∙ bind_ok (label_length c label) _ (label_length_lem label short)
      ∙ bind_ok (extend_label c a ((6 + length label) ∷ [])) _ (extend_label_lem a _ (omega arith))
      ∙ bind_ok (extend_label c b tls13) _ (extend_label_lem b tls13 (omega arith))
      ∙ bind_ok (extend_label c d label) _ (extend_label_lem d label (omega arith))
      ∙ push_context_lem e context valid (omega arith)

  -- With an initialized secret, a label of at most twelve bytes, nothing or a hash as context
  -- and at most 255 hashes of output, `make_expanded_hkdf_label` finds room for the label in
  -- its buffer and returns the HKDF expansion of the HkdfLabel of RFC 8446: the length, the
  -- label behind its length and the prefix, and the context behind its length.
  pub make_expanded_hkdf_label_lem :
      (prk : List ℕ) (n : ℕ) (label : List ℕ) (context : ContextType)
      → length label ≤ 12
      → IsHash c context
      → n ≤ 255 * hash_len c
      → make_expanded_hkdf_label c (some prk) n label context s
        ≡ (ok (expand_label c prk n label context), s)
  unfolding make_expanded_hkdf_label
  make_expanded_hkdf_label_lem prk n label context short valid room =
      let info = label_bytes n label context in
      bind_ok (hkdf_label c n label context)
        (λ i. require internal_error (some prk) >>= λ k. require crypto_error (c.hkdf.expand k i n))
        (hkdf_label_lem n label context short valid)
      ∙ bind_ok (require internal_error (some prk))
          (λ k. require crypto_error (c.hkdf.expand k info n)) (require-some internal_error s refl)
      ∙ require-some crypto_error s (c.hkdf.expand_ok prk info n room)

  -- An uninitialized secret is an error.
  pub make_expanded_hkdf_label-none :
      (n : ℕ) (label : List ℕ) (context : ContextType)
      → length label ≤ 12
      → IsHash c context
      → make_expanded_hkdf_label c none n label context s ≡ (err internal_error, s)
  unfolding make_expanded_hkdf_label
  make_expanded_hkdf_label-none n label context short valid =
      then_ok (hkdf_label c n label context) _ (hkdf_label_lem n label context short valid)
        (bind_err _ _ (require-none internal_error s refl))
