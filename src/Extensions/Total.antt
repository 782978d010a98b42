-- ===== src/Extensions/Total.antt =====
-- The parser of a group of extensions on any input.
use embedded_tls.Prelude.{
  ℕ, zero, suc, ◌+◌, ◌≤◌, ap, Bool-cases, inl, inr, List, [], Option, none, some, arith, length,
}
use embedded_tls.Exec.{
  Result, ok, err, panic, stuck, Returns, Exec, pure, raise, map_err, outcome, ◌>>=◌,
}
use embedded_tls.Error.{
  ParseError, insufficient_bytes, insufficient_space, invalid_data, decode_error,
}
use embedded_tls.Heapless.{Heapless}
use embedded_tls.Parse.{ParseBuffer, Read, is_empty}
use embedded_tls.Parse.Total.{
  IsValid, After, Total, After-weaken, After-continue, Total-pure, Total-raise, Total-weaken,
  Total-any, Total-bind, Total-then, Total-map_err, Total-read_u16, Total-slice, Total-within,
  Total-push_or, is_empty-false,
}
use embedded_tls.Codec.ExtensionType.{ExtensionType}
use embedded_tls.Extensions.Skipping.{Total-known, Total-extension_head, Known-extension_head}
use embedded_tls.Extensions.{
  recognised, extension_data, judge, parse_extension, known, fold_while, push_known, parse_vector,
}

module _ {E A B : Type 0} where
  -- A loop ends within as many rounds as bytes are left, where each round reads a byte.
  pub After-fold_while :
      {k : ℕ} {Q : A → Type 0} (read : Exec ParseBuffer E A) (put : B → A → Exec ParseBuffer E B)
      → Total (suc k) Q read
      → ((acc : B) (x : A) → Total 0 (λ _. Unit {0}) (put acc x))
      → (fuel : ℕ) (acc : B) (p : ParseBuffer) → IsValid p
      → length p.buffer ≤ p.pos + fuel
      → After 0 (λ _. Unit {0}) p (fold_while read put fuel acc p)
  unfolding fold_while ◌>>=◌
  After-fold_while read put t u zero acc p v h = elim (Bool-cases (is_empty p)) [
    | inl done ↦ rw done ((Total-pure acc tt).at p v)
    | inr more ↦ absurd (is_empty-false p more (omega arith))
  ]
  After-fold_while {k} {Q} read put t u (suc fuel) acc p v b = elim (Bool-cases (is_empty p)) [
    | inl done ↦ rw done ((Total-pure acc tt).at p v)
    | inr more ↦ rw more (
        After-weaken 0 (suc k + (0 + 0))
          (After-continue (suc k) (0 + 0) _ p (read p).0 (read p).1 (t.at p v) (λ x _ w same far.
            After-continue 0 0 _ _ _ _ ((u acc x).at _ w) (λ next _ w' same' far'.
              After-fold_while read put t u fuel next _ w'
                (omega (arith, ap length same, ap length same')))))
          (omega arith) (λ _ _. tt))
  ]

abbrev pub TotalArm : {G : Type 0} → Option (Read G) → Type 0
TotalArm none = Unit
TotalArm (some read) = Total 0 (λ _. Unit {0}) read

Total-recognised :
    (r : Result ParseError ExtensionType)
    → Returns r
    → Total 0 (λ _. Unit {0}) (outcome (recognised r))
unfolding raise pure
Total-recognised (ok t) h = Total-pure t tt
Total-recognised (err insufficient_bytes) h = Total-raise _
Total-recognised (err insufficient_space) h = Total-raise _
Total-recognised (err invalid_data) h = Total-raise _
Total-recognised panic h = absurd h
Total-recognised stuck h = absurd h

module _ {G : Type 0} where
  Total-extension_data :
      (arm : Option (Read G)) (q : ParseBuffer)
      → IsValid q
      → TotalArm arm
      → Total 0 (λ _. Unit {0}) (extension_data arm q)
  Total-extension_data none q v t = Total-raise _
  Total-extension_data (some read) q v t =
      Total-then
        (Total-any (Total-within q (map_err (λ _. decode_error) read) ((Total-map_err _ t).at q v)))
        (λ x _. Total-pure x.0 tt)

  Total-judge :
      (arms : ExtensionType → Option (Read G))
      → ((t : ExtensionType) → TotalArm (arms t))
      → (x : Result ParseError ExtensionType × ParseBuffer) → Returns x.0 × IsValid x.1
      → Total 0 (λ _. Unit {0}) (judge arms x)
  unfolding judge
  Total-judge arms each (r, q) (h, v) =
      Total-then (Total-recognised r h) (λ t _. Total-extension_data (arms t) q v (each t))

  pub Total-parse_known :
      (arms : ExtensionType → Option (Read G))
      → ((t : ExtensionType) → TotalArm (arms t))
      → Total 2 (λ _. Unit {0}) (known (parse_extension arms))
  unfolding parse_extension
  Total-parse_known arms each =
      Total-known Total-extension_head Known-extension_head (Total-judge arms each)

module _ {G : Type 0} ⦃h : Heapless⦄ where
  Total-push_known :
      (n : ℕ) (xs : List G) (x : Option G) → Total 0 (λ _. Unit {0}) (push_known ⦃h = h⦄ n xs x)
  unfolding push_known
  Total-push_known n xs none = Total-pure xs tt
  Total-push_known n xs (some x) = Total-push_or _ n xs x

  pub Total-parse_vector :
      (arms : ExtensionType → Option (Read G)) (n : ℕ)
      → ((t : ExtensionType) → TotalArm (arms t))
      → Total 2 (λ _. Unit {0}) (parse_vector ⦃h = h⦄ arms n)
  unfolding parse_vector
  Total-parse_vector arms n each = Total-then (Total-map_err _ Total-read_u16) (λ len _.
      Total-weaken
        (Total-bind (Total-map_err _ (Total-slice len)) (λ q v.
          Total-then
            (Total-any (
              Total-within q _ (
                After-fold_while (known (parse_extension arms)) (push_known n)
                  (Total-parse_known arms each) (Total-push_known n) (length q.buffer) [] q v
                  (omega arith))))
            (λ x _. Total-pure x.0 tt)))
        (omega arith) (λ _ w. w))
