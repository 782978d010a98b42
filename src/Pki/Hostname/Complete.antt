-- ===== src/Pki/Hostname/Complete.antt =====
-- Names that belong together are accepted by `tls_hostname_match` of src/pki.rs.
use mathlib.Core.List.{map}
use embedded_tls.Prelude.{
  ℕ, suc, ◌+◌, ◌≤◌, ◌≡◌, refl, sym, ap, ap₂, subst, ◌∙◌, ◌↔◌, Bool, inl, inr, true, false, some,
  List, [], ◌∷◌, ◌++◌, All, arith, length, ltb, ◌==◌, ==_iff, if◌then◌else◌,
}
use embedded_tls.Pki.Hostname.{
  dot, star, is_name_byte, to_ascii_lowercase, counted, scan_name, scan_host, same_lowercase,
  same_name, behind_dot, match_suffix, wildcard_suffix, match_wildcard, match_scanned,
  tls_hostname_match_impl,
}
use embedded_tls.Pki.Hostname.Sound.{
  IsName, SameName, dots, Matches, tls_hostname_match_impl-Matches,
}

no_star : (b : ℕ) → is_name_byte b ≡ true → (b == star) ≡ false
unfolding is_name_byte
no_star b p = ground arith

scan_name_ok :
    (bs : List ℕ) (labels stars : ℕ)
    → IsName bs
    → scan_name bs labels stars ≡ some (labels + dots bs, stars)
unfolding scan_name
scan_name_ok [] labels stars h = ap (λ l. some (l, stars)) (omega arith)
scan_name_ok (b ∷ bs) labels stars (t, h) =
    rw (t, no_star b t)
      (scan_name_ok bs (counted dot b labels) stars h ∙ ap (λ l. some (l, stars)) (ground arith))

scan_host_ok :
    (bs : List ℕ) (labels : ℕ) → IsName bs → scan_host bs labels ≡ some (labels + dots bs)
unfolding scan_host
scan_host_ok [] labels h = ap some (omega arith)
scan_host_ok (b ∷ bs) labels (t, h) =
    rw t (scan_host_ok bs (counted dot b labels) h ∙ ap some (ground arith))

dot-lowercase : (b : ℕ) → (to_ascii_lowercase b == dot) ≡ (b == dot)
unfolding to_ascii_lowercase
dot-lowercase b = ground arith

dots-lowercase : (bs : List ℕ) → dots (map to_ascii_lowercase bs) ≡ dots bs
dots-lowercase [] = refl
dots-lowercase (b ∷ bs) =
    ap₂ (λ (t : Bool) n. (if t then 1 else 0) + n) (dot-lowercase b) (dots-lowercase bs)

SameName-dots : (xs ys : List ℕ) → SameName xs ys → dots xs ≡ dots ys
SameName-dots xs ys p = sym (dots-lowercase xs) ∙ ap dots p ∙ dots-lowercase ys

length-lowercase : (bs : List ℕ) → length (map to_ascii_lowercase bs) ≡ length bs
length-lowercase [] = refl
length-lowercase (b ∷ bs) = ap (λ n. suc n) (length-lowercase bs)

head_tail : {x y : ℕ} {xs ys : List ℕ} → (x ∷ xs) ≡ (y ∷ ys) → (x ≡ y) × (xs ≡ ys)
head_tail p = (cc, cc)

same_lowercase_ok : (xs ys : List ℕ) → SameName xs ys → same_lowercase xs ys ≡ true
unfolding same_lowercase
same_lowercase_ok [] ys p = refl
same_lowercase_ok (x ∷ xs) [] p = refl
same_lowercase_ok (x ∷ xs) (y ∷ ys) p =
    let (q, r) = head_tail p in rw ((==_iff _ _).1 q) (same_lowercase_ok xs ys r)

same_name_ok : (xs ys : List ℕ) → SameName xs ys → same_name xs ys ≡ true
unfolding same_name
same_name_ok xs ys p =
    let e : length xs ≡ length ys = sym (length-lowercase xs) ∙ ap length p ∙ length-lowercase ys in
    rw ((==_iff (length xs) (length ys)).1 e) (same_lowercase_ok xs ys p)

behind_dot_ok :
    (label rest : List ℕ)
    → All (λ b. (b == dot) ≡ false) label
    → (behind_dot (label ++ (dot ∷ rest)) ≡ some rest)
      × (dots (label ++ (dot ∷ rest)) ≡ 1 + dots rest)
unfolding behind_dot
behind_dot_ok [] rest h = (refl, refl)
behind_dot_ok (b ∷ bs) rest (t, h) =
    let (e, n) = behind_dot_ok bs rest h in (rw t e, rw t (omega (arith, n)))

match_exact :
    (cn host : List ℕ)
    → IsName host
    → IsName cn
    → SameName cn host
    → tls_hostname_match_impl cn host ≡ true
unfolding tls_hostname_match_impl match_scanned
match_exact cn host h n same =
    rw (scan_name_ok cn 1 0 n, scan_host_ok host 1 h) (same_name_ok cn host same)

match_starred :
    (suffix label rest : List ℕ)
    → IsName (label ++ (dot ∷ rest))
    → All (λ b. (b == dot) ≡ false) label
    → 1 ≤ dots suffix
    → IsName suffix
    → SameName suffix rest
    → tls_hostname_match_impl (star ∷ dot ∷ suffix) (label ++ (dot ∷ rest)) ≡ true
unfolding tls_hostname_match_impl match_scanned scan_name wildcard_suffix match_wildcard
    match_suffix is_name_byte
match_starred suffix label rest h one long n same =
    let host = label ++ (dot ∷ rest) in
    let (b, d) = behind_dot_ok label rest one in
    let e = SameName-dots suffix rest same in
    let few : ltb (2 + dots suffix) 3 ≡ false = ground arith in
    let labels : ((2 + dots suffix) == (1 + dots host)) ≡ true = (==_iff _ _).1 (omega arith) in
    rw (scan_name_ok suffix 2 1 n, scan_host_ok host 1 h, few, labels, b)
      (same_name_ok suffix rest same)

Matches-tls_hostname_match_impl :
    (cn host : List ℕ) → Matches cn host → tls_hostname_match_impl cn host ≡ true
Matches-tls_hostname_match_impl cn host (h, inl (n, same)) = match_exact cn host h n same
Matches-tls_hostname_match_impl cn host (h, inr w) =
    ap₂ tls_hostname_match_impl w.cn_is w.host_is
    ∙ match_starred w.suffix w.label w.rest (subst IsName w.host_is h) w.one_label w.long
        w.suffix_name w.same

-- A name of a certificate is taken for a name of a host exactly where the host has only
-- letters, digits, `-` and `.`, and either the name of the certificate has only these too and
-- both are the same but for case, or it is `*.` and a suffix with a dot and no star, and the
-- host is one label, which may be empty, a dot, and a rest that is that suffix but for case.
pub tls_hostname_match_impl_iff :
    (cn host : List ℕ) → (tls_hostname_match_impl cn host ≡ true) ↔ Matches cn host
tls_hostname_match_impl_iff cn host =
    (tls_hostname_match_impl-Matches cn host, Matches-tls_hostname_match_impl cn host)
