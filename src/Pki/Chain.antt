-- ===== src/Pki/Chain.antt =====
-- src/pki.rs: `CertificateChain`, which goes through the certificates of a server from the one that the
-- authority signed to the one of the server, and the loop over it in `CertVerifier::verify_certificate`.
-- `remaining` is the source's `idx + 1`: its `idx` is signed and ends at -1.
pub mod Linked
use embedded_tls.Prelude.{
  ℕ, zero, suc, ◌-◌, none, some, Option, List, [], ◌∷◌, length, get_elem?, ◌==◌, if◌then◌else◌,
}
use embedded_tls.Exec.{Result, Exec, ok, err, panic, stuck, pure, outcome, ◌>>=◌}
use embedded_tls.Error.{TlsError}
use embedded_tls.Handshake.Certificate.{CertificateEntry}
use embedded_tls.Pki.Hostname.{CertificateNames}

pub record CertificateChain : Type 0 where
  pub prev : CertificateEntry
  pub chain : List CertificateEntry
  pub remaining : ℕ

abbrev pub new : CertificateEntry → List CertificateEntry → CertificateChain
new ca entries = record { prev = ca; chain = entries; remaining = length entries }

-- `Iterator::next`
unfoldable pub next : Exec CertificateChain TlsError (Option (CertificateEntry × CertificateEntry))
next c = if c.remaining == 0 then (ok none, c) else elim (get_elem? c.chain (c.remaining - 1)) [
  | none ↦ (panic, c)
  | some cur ↦ (ok (some (c.prev, cur)), record c { prev = cur; remaining = c.remaining - 1 })
]

abbrev pub nameless : CertificateNames
nameless = record { common_name = none; san_dns_names = [] }

-- `S` is the state of the clock, and `check` the function `verify_certificate` of src/pki.rs.
module _ {S : Type 0} (now : S → Option ℕ × S)
    (check : CertificateEntry
      → CertificateEntry
      → Option ℕ
      → Result TlsError CertificateNames) where
  -- `verify_certificate(p, q, Clock::now())`
  unfoldable pub check_now : CertificateEntry → CertificateEntry → Exec S TlsError CertificateNames
  check_now p q s = let (time, s') = now s in (check p q time, s')

  abbrev pub for_item :
      Result TlsError (Option (CertificateEntry × CertificateEntry))
      → CertificateNames
      → (CertificateEntry → CertificateEntry → Exec S TlsError CertificateNames)
      → Exec S TlsError CertificateNames
  for_item (ok none) names f s = (ok names, s)
  for_item (ok (some (p, q))) names f s = f p q s
  for_item (err e) names f s = (err e, s)
  for_item panic names f s = (panic, s)
  for_item stuck names f s = (stuck, s)

  -- The loop over the chain, on fuel.
  unfoldable pub walk : ℕ → CertificateChain → CertificateNames → Exec S TlsError CertificateNames
  walk zero c names = λ s. (stuck, s)
  walk (suc n) c names =
      let (item, c') = next c in
      for_item item names (λ p q. check_now p q >>= λ found. walk n c' found)

  unfoldable pub walk_chain :
      CertificateEntry → List CertificateEntry → Exec S TlsError CertificateNames
  walk_chain ca entries = walk (suc (length entries)) (new ca entries) nameless
