-- ===== src/Pki/Hostname/Sound.antt =====
-- Names that `tls_hostname_match` of src/pki.rs accepts.
use mathlib.Core.List.{map}
use mathlib.Core.Option.{some-injective}
use embedded_tls.Prelude.{
  ℕ, ◌+◌, ◌≤◌, ◌≡◌, refl, sym, ap, ap₂, subst, ◌∙◌, Bool, Bool-cases, inl, inr, true, false, ◌&&◌,
  ◌||◌, Option, none, some, List, [], ◌∷◌, ◌++◌, All, ◌⊎◌, arith, length, ltb, ◌==◌, ==_iff,
  if◌then◌else◌,
}
use embedded_tls.Pki.Hostname.{
  dot, star, is_name_byte, to_ascii_lowercase, counted, scan_name, scan_host, same_lowercase,
  same_name, behind_dot, match_suffix, wildcard_suffix, match_wildcard, match_scanned,
  tls_hostname_match_impl,
}

-- letters, digits, `-` and `.`
abbrev pub IsName : List ℕ → Type 0
IsName = All (λ b. is_name_byte b ≡ true)

abbrev pub SameName : List ℕ → List ℕ → Type 0
SameName xs ys = map to_ascii_lowercase xs ≡ map to_ascii_lowercase ys

abbrev pub dots : List ℕ → ℕ
dots [] = 0
dots (b ∷ bs) = (if b == dot then 1 else 0) + dots bs

-- The name of the certificate stands for `label` and a dot in front of a suffix with a dot of its own.
pub record Wildcard (cn host : List ℕ) : Type 0 where
  pub suffix : List ℕ
  pub label : List ℕ
  pub rest : List ℕ
  pub cn_is : cn ≡ star ∷ dot ∷ suffix
  pub host_is : host ≡ label ++ (dot ∷ rest)
  pub one_label : All (λ b. (b == dot) ≡ false) label
  pub long : 1 ≤ dots suffix
  pub suffix_name : IsName suffix
  pub same : SameName suffix rest

-- The names of a certificate and of a host that belong together.
abbrev pub Matches : List ℕ → List ℕ → Type 0
Matches cn host = IsName host × ((IsName cn × SameName cn host) ⊎ Wildcard cn host)

-- the tests of a branch that was taken
chosen :
    {A : Type 0} {b : Bool} {x : A} {o : Option A}
    → (if b then o else none) ≡ some x
    → (b ≡ true) × (o ≡ some x)
chosen {b = true} p = (refl, p)
chosen {b = false} p = cc

both : {b c : Bool} → (b && c) ≡ true → (b ≡ true) × (c ≡ true)
both {b = true} p = (refl, p)
both {b = false} p = cc

pub false_not_true : ¬ (false ≡ true)
false_not_true p = cc

first_of : {b c : Bool} → (b || c) ≡ true → c ≡ false → b ≡ true
first_of {b = true} p q = refl
first_of {b = false} p q = absurd (false_not_true (sym q ∙ p))

passed : {b c : Bool} → (if b then c else false) ≡ true → (b ≡ true) × (c ≡ true)
passed {b = true} p = (refl, p)
passed {b = false} p = cc

-- The scan counts dots and stars; where it counts no star, there is none.
scan_name_lem :
    (bs : List ℕ) (labels stars l s : ℕ)
    → scan_name bs labels stars ≡ some (l, s)
    → (l ≡ labels + dots bs) × (stars ≤ s) × (s ≤ stars → IsName bs)
unfolding scan_name
scan_name_lem [] labels stars l s p =
    let a : labels ≡ l = cc in let b : stars ≡ s = cc in (omega arith, omega arith, λ _. tt)
scan_name_lem (b ∷ bs) labels stars l s p =
    let (t, q) = chosen {b = is_name_byte b || (b == star)} p in
    let (ih, le, names) = scan_name_lem bs (counted dot b labels) (counted star b stars) l s q in
    elim (Bool-cases (b == star)) [
      | inl starred ↦ (
        ground (arith, ih),
        ground (arith, le, starred),
        λ h. absurd (ground (arith, le, starred, h)),
      )
      | inr plain ↦ (
        ground (arith, ih),
        ground (arith, le, plain),
        λ h. (first_of t plain, names (ground (arith, h, plain))),
      )
    ]

scan_host-IsName : (bs : List ℕ) (labels l : ℕ) → scan_host bs labels ≡ some l → IsName bs
unfolding scan_host
scan_host-IsName [] labels l p = tt
scan_host-IsName (b ∷ bs) labels l p = let (t, q) = chosen p in (t, scan_host-IsName bs _ l q)

same_lowercase_lem :
    (xs ys : List ℕ) → length xs ≡ length ys → same_lowercase xs ys ≡ true → SameName xs ys
unfolding same_lowercase
same_lowercase_lem [] [] e p = refl
same_lowercase_lem [] (y ∷ ys) e p = absurd (omega arith)
same_lowercase_lem (x ∷ xs) [] e p = absurd (omega arith)
same_lowercase_lem (x ∷ xs) (y ∷ ys) e p =
    let (t, q) = passed p in ap₂ ◌∷◌ ((==_iff _ _).0 t) (same_lowercase_lem xs ys (omega arith) q)

same_name_lem : (xs ys : List ℕ) → same_name xs ys ≡ true → SameName xs ys
unfolding same_name
same_name_lem xs ys p = let (t, q) = passed p in same_lowercase_lem xs ys ((==_iff _ _).0 t) q

behind_dot_lem :
    (host rest : List ℕ)
    → behind_dot host ≡ some rest
    → (label : List ℕ) × (host ≡ label ++ (dot ∷ rest)) × All (λ b. (b == dot) ≡ false) label
unfolding behind_dot
behind_dot_lem [] rest p = cc
behind_dot_lem (b ∷ bs) rest p = elim (Bool-cases (b == dot)) [
  | inl here ↦ ([], ap₂ ◌∷◌ ((==_iff b dot).0 here) (some-injective bs rest (rw here at p)), tt)
  | inr there ↦
      let (label, e, names) = behind_dot_lem bs rest (rw there at p) in
      (b ∷ label, ap (λ t. b ∷ t) e, (there, names))
]

wildcard_suffix_lem :
    (cn suffix : List ℕ) → wildcard_suffix cn ≡ some suffix → cn ≡ star ∷ dot ∷ suffix
unfolding wildcard_suffix
wildcard_suffix_lem [] suffix p = cc
wildcard_suffix_lem (a ∷ []) suffix p = cc
wildcard_suffix_lem (a ∷ b ∷ bs) suffix p =
    let (t, q) = chosen p in
    let (t1, t2) = both t in
    let e1 : a ≡ star = (==_iff a star).0 t1 in
    let e2 : b ≡ dot = (==_iff b dot).0 t2 in ap₂ ◌∷◌ e1 (ap₂ ◌∷◌ e2 (some-injective bs suffix q))

-- the scan of a name with a star in front: one star there, and none behind
scan_wildcard :
    (suffix : List ℕ) (l : ℕ)
    → scan_name (star ∷ dot ∷ suffix) 1 0 ≡ some (l, 1)
    → (l ≡ 2 + dots suffix) × IsName suffix
unfolding scan_name
scan_wildcard suffix l p =
    let (e, _, names) = scan_name_lem suffix 2 1 l 1 (chosen (chosen p).1).1 in
    (e, names (omega arith))

match_wildcard_lem :
    (cn host : List ℕ) (l h : ℕ) (o : Option (List ℕ))
    → wildcard_suffix cn ≡ o
    → scan_name cn 1 0 ≡ some (l, 1)
    → match_wildcard o host l h ≡ true
    → Wildcard cn host
unfolding match_wildcard match_suffix
match_wildcard_lem cn host l h none w p q = cc
match_wildcard_lem cn host l h (some suffix) w p q = elim (Bool-cases (ltb l 3)) [
  | inl few ↦ absurd (false_not_true (rw few at q))
  | inr many ↦
      let q2 = (passed {b = l == h} (rw many at q)).1 in
      let cn_is = wildcard_suffix_lem cn suffix w in
      let (e, names) =
        scan_wildcard suffix l (subst (λ t. scan_name t 1 0 ≡ some (l, 1)) cn_is p) in
      suffix_lem (behind_dot host) refl cn_is (ground (arith, many, e)) names q2
]
  where
    suffix_lem :
        (o : Option (List ℕ))
        → behind_dot host ≡ o
        → cn ≡ star ∷ dot ∷ suffix
        → 1 ≤ dots suffix
        → IsName suffix
        → match_suffix suffix o ≡ true
        → Wildcard cn host
    suffix_lem none b e long names q = absurd (false_not_true q)
    suffix_lem (some rest) b e long names q =
        let (label, host_is, one_label) = behind_dot_lem host rest b in
        record {
          suffix = suffix;
          label = label;
          rest = rest;
          cn_is = e;
          host_is = host_is;
          one_label = one_label;
          long = long;
          suffix_name = names;
          same = same_name_lem suffix rest q;
        }

pub tls_hostname_match_impl-Matches :
    (cn host : List ℕ) → tls_hostname_match_impl cn host ≡ true → Matches cn host
unfolding tls_hostname_match_impl match_scanned
tls_hostname_match_impl-Matches cn host p = go (scan_name cn 1 0) (scan_host host 1) refl refl p
  where
    go :
        (o : Option (ℕ × ℕ)) (h : Option ℕ)
        → scan_name cn 1 0 ≡ o
        → scan_host host 1 ≡ h
        → match_scanned cn host o h ≡ true
        → Matches cn host
    go none h p q r = absurd (false_not_true r)
    go (some x) none p q r = absurd (false_not_true r)
    go (some (l, s)) (some n) p q r = elim (Bool-cases (s == 0)) [
      | inl none_ ↦
          let e : s ≤ 0 = ground arith in
          (
            scan_host-IsName host 1 n q,
            inl ((scan_name_lem cn 1 0 l s p).2 e, same_name_lem cn host (rw none_ at r)),
          )
      | inr some_ ↦
          let (t, r2) = passed (rw some_ at r) in
          let one : s ≡ 1 = (==_iff s 1).0 t in
          (
            scan_host-IsName host 1 n q,
            inr (
                match_wildcard_lem cn host l n (wildcard_suffix cn) refl
                  (p ∙ ap (λ k. some (l, k)) one) r2),
          )
    ]
