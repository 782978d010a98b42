-- ===== src/Pki/Hostname.antt =====
-- src/pki.rs: whether the name of a host is one of the names of a certificate.
pub mod Sound
pub mod Complete
pub mod Names
use embedded_tls.Prelude.{
  ℕ, ◌+◌, Bool, true, false, ◌&&◌, ◌||◌, Option, none, some, List, [], ◌∷◌, length, ltb, leb, ◌==◌,
  if◌then◌else◌,
}

pub record CertificateNames : Type 0 where
  pub common_name : Option (List ℕ)
  pub san_dns_names : List (List ℕ)

abbrev pub dot : ℕ
dot = 46

abbrev pub star : ℕ
star = 42

-- `b'a'..=b'z' | b'A'..=b'Z' | b'0'..=b'9' | b'-' | b'.'`
unfoldable pub is_name_byte : ℕ → Bool
is_name_byte b =
    (leb 97 b && leb b 122)
    || (leb 65 b && leb b 90)
    || (leb 48 b && leb b 57)
    || (b == 45)
    || (b == dot)

unfoldable pub to_ascii_lowercase : ℕ → ℕ
to_ascii_lowercase b = if leb 65 b && leb b 90 then b + 32 else b

abbrev counted : ℕ → ℕ → ℕ → ℕ
counted wanted b n = if b == wanted then n + 1 else n

-- The loop over the name of the certificate: the numbers of labels and of stars, or nothing where a byte is not allowed.
unfoldable pub scan_name : List ℕ → ℕ → ℕ → Option (ℕ × ℕ)
scan_name [] labels stars = some (labels, stars)
scan_name (b ∷ bs) labels stars =
    let rest = scan_name bs (counted dot b labels) (counted star b stars) in
    if is_name_byte b || (b == star) then rest else none

-- The loop over the name of the host.
unfoldable pub scan_host : List ℕ → ℕ → Option ℕ
scan_host [] labels = some labels
scan_host (b ∷ bs) labels =
    let rest = scan_host bs (counted dot b labels) in if is_name_byte b then rest else none

-- the loop over two names of one length
unfoldable pub same_lowercase : List ℕ → List ℕ → Bool
same_lowercase [] ys = true
same_lowercase (x ∷ xs) [] = true
same_lowercase (x ∷ xs) (y ∷ ys) =
    let rest = same_lowercase xs ys in
    if to_ascii_lowercase x == to_ascii_lowercase y then rest else false

unfoldable pub same_name : List ℕ → List ℕ → Bool
same_name xs ys = if length xs == length ys then same_lowercase xs ys else false

-- what is behind the first dot
pub behind_dot : List ℕ → Option (List ℕ)
behind_dot [] = none
behind_dot (b ∷ bs) = let rest = behind_dot bs in if b == dot then some bs else rest

pub match_suffix : List ℕ → Option (List ℕ) → Bool
match_suffix suffix none = false
match_suffix suffix (some host_suffix) = same_name suffix host_suffix

-- `cn.starts_with(b"*.")`, and what is behind
pub wildcard_suffix : List ℕ → Option (List ℕ)
wildcard_suffix [] = none
wildcard_suffix (a ∷ []) = none
wildcard_suffix (a ∷ b ∷ suffix) = if (a == star) && (b == dot) then some suffix else none

pub match_wildcard : Option (List ℕ) → List ℕ → ℕ → ℕ → Bool
match_wildcard none host cn_labels host_labels = false
match_wildcard (some suffix) host cn_labels host_labels =
    if ltb cn_labels 3
    then false
    else if cn_labels == host_labels
    then match_suffix suffix (behind_dot host)
    else false

unfoldable pub match_scanned : List ℕ → List ℕ → Option (ℕ × ℕ) → Option ℕ → Bool
match_scanned cn host none h = false
match_scanned cn host (some c) none = false
match_scanned cn host (some (cn_labels, stars)) (some host_labels) =
    if stars == 0
    then same_name cn host
    else if stars == 1
    then match_wildcard (wildcard_suffix cn) host cn_labels host_labels
    else false

unfoldable pub tls_hostname_match_impl : List ℕ → List ℕ → Bool
tls_hostname_match_impl cn host = match_scanned cn host (scan_name cn 1 0) (scan_host host 1)

-- the loop over the alternative names
unfoldable pub any_match : List (List ℕ) → List ℕ → Bool
any_match [] host = false
any_match (san ∷ sans) host =
    let rest = any_match sans host in if tls_hostname_match_impl san host then true else rest

unfoldable pub match_common_name : Option (List ℕ) → List ℕ → Bool
match_common_name none host = false
match_common_name (some cn) host = tls_hostname_match_impl cn host

-- `names.common_name.is_none() && names.san_dns_names.is_empty()`
pub is_nameless : CertificateNames → Bool
is_nameless names = elim names.common_name [
  | none ↦ length names.san_dns_names == 0
  | some _ ↦ false
]

unfoldable pub tls_hostname_match : CertificateNames → Option (List ℕ) → Bool
tls_hostname_match names none = is_nameless names
tls_hostname_match names (some host) =
    if any_match names.san_dns_names host then true else match_common_name names.common_name host
