-- ===== src/Codec/Vectors/RoundTrip.antt =====
-- The list extensions are read back as they were written.
use mathlib.Core.List.{flat_map}
use embedded_tls.Prelude.{
  ℕ, ◌*◌, ◌^◌, ◌≤◌, ◌<◌, ◌≡◌, refl, List, [], ◌∷◌, arith, length, length-append, All, All-map,
  All-of,
}
use embedded_tls.Prelude.Words.{be16}
use embedded_tls.Heapless.{Heapless}
use embedded_tls.Buffer.Encodes.{Encodes, Encodes-push, Encodes-push_u16, Encodes-map_err}
use embedded_tls.Parse.Parses.{Parses, Parses-bind, Parses-pure, Parses-read_u8, Parses-read_u16}
use embedded_tls.Codec.Table.{Parses-ok_or}
use embedded_tls.Codec.NamedGroup.{NamedGroup}
use embedded_tls.Codec.SignatureScheme
use embedded_tls.Codec.SignatureScheme.{SignatureScheme}
use embedded_tls.Codec.KeyShare.{read_group, group_bytes, Encodes-write_group, Parses-read_group}
use embedded_tls.Codec.Lists.{
  list16, list8, Encodes-write_list16, Parses-read_list16, Encodes-write_list8, Parses-read_list8,
}
use embedded_tls.Codec.Vectors.{
  read_scheme, write_scheme, read_version, write_version, PskKeyExchangeMode, psk_ke, psk_dhe_ke,
  mode_code, read_mode, write_mode, MaxFragmentLength, bits9, bits10, bits11, bits12, fragment_code,
  read_max_fragment_length, write_max_fragment_length, write_supported_groups,
  write_signature_algorithms, write_signature_algorithms_cert, write_supported_versions,
  write_psk_modes, read_supported_groups, read_signature_algorithms, read_supported_versions,
  read_psk_modes,
}

-- Elements of the same width.
length-flat_map_width :
    {A : Type 0} (enc : A → List ℕ) (w : ℕ)
    → ((a : A) → length (enc a) ≡ w)
    → (xs : List A) → length (flat_map enc xs) ≡ w * length xs
unfolding flat_map
length-flat_map_width enc w h [] = grind arith
length-flat_map_width enc w h (x ∷ xs) =
    grind (arith, h x, length-append (enc x) (flat_map enc xs), length-flat_map_width enc w h xs)

abbrev pub scheme_bytes : SignatureScheme → List ℕ
scheme_bytes a = be16 (SignatureScheme.as_u16 a)

pub Encodes-write_scheme : (a : SignatureScheme) → Encodes (write_scheme a) (scheme_bytes a)
unfolding write_scheme
Encodes-write_scheme a = Encodes-map_err _ (Encodes-push_u16 (SignatureScheme.as_u16 a))

pub Parses-read_scheme : (a : SignatureScheme) → Parses read_scheme a (scheme_bytes a)
unfolding read_scheme
Parses-read_scheme a =
    Parses-bind _ (Parses-read_u16 (SignatureScheme.as_u16 a) (SignatureScheme.as_u16-lt a))
      (Parses-ok_or _ _ (SignatureScheme.of_code-as_u16 a))

abbrev pub mode_bytes : PskKeyExchangeMode → List ℕ
mode_bytes m = mode_code m ∷ []

Encodes-write_mode : (m : PskKeyExchangeMode) → Encodes (write_mode m) (mode_bytes m)
unfolding write_mode
Encodes-write_mode m = Encodes-map_err _ (Encodes-push (mode_code m))

Parses-read_mode : (m : PskKeyExchangeMode) → Parses read_mode m (mode_bytes m)
unfolding read_mode mode_code
Parses-read_mode psk_ke = Parses-bind _ (Parses-read_u8 0) (Parses-ok_or _ _ refl)
Parses-read_mode psk_dhe_ke = Parses-bind _ (Parses-read_u8 1) (Parses-ok_or _ _ refl)

pub Encodes-write_version : (v : ℕ) → Encodes (write_version v) (be16 v)
unfolding write_version
Encodes-write_version v = Encodes-map_err _ (Encodes-push_u16 v)

pub Parses-read_version : (v : ℕ) → v < 2 ^ 16 → Parses read_version v (be16 v)
unfolding read_version
Parses-read_version v h = Parses-bind _ (Parses-read_u16 v h) (Parses-pure v)

-- Each maximum fragment length is encoded as its one byte and read back from it.
pub max_fragment_length-round_trip :
    (m : MaxFragmentLength)
    → Encodes (write_max_fragment_length m) (fragment_code m ∷ [])
      × Parses read_max_fragment_length m (fragment_code m ∷ [])
unfolding write_max_fragment_length read_max_fragment_length fragment_code
max_fragment_length-round_trip m = (Encodes-map_err _ (Encodes-push (fragment_code m)), go m)
  where
    go : (k : MaxFragmentLength) → Parses read_max_fragment_length k (fragment_code k ∷ [])
    go bits9 = Parses-bind _ (Parses-read_u8 1) (Parses-ok_or _ _ refl)
    go bits10 = Parses-bind _ (Parses-read_u8 2) (Parses-ok_or _ _ refl)
    go bits11 = Parses-bind _ (Parses-read_u8 3) (Parses-ok_or _ _ refl)
    go bits12 = Parses-bind _ (Parses-read_u8 4) (Parses-ok_or _ _ refl)

pub Encodes-write_supported_versions :
    (vs : List ℕ) → Encodes (write_supported_versions vs) (list8 be16 vs)
unfolding write_supported_versions
Encodes-write_supported_versions vs = Encodes-write_list8 Encodes-write_version vs

pub Encodes-write_psk_modes :
    (ms : List PskKeyExchangeMode) → Encodes (write_psk_modes ms) (list8 mode_bytes ms)
unfolding write_psk_modes
Encodes-write_psk_modes ms = Encodes-write_list8 Encodes-write_mode ms

pub Encodes-write_supported_groups :
    (gs : List NamedGroup) → Encodes (write_supported_groups gs) (list16 group_bytes gs)
unfolding write_supported_groups
Encodes-write_supported_groups gs = Encodes-write_list16 Encodes-write_group gs

pub Encodes-write_signature_algorithms :
    (ss : List SignatureScheme) → Encodes (write_signature_algorithms ss) (list16 scheme_bytes ss)
unfolding write_signature_algorithms
Encodes-write_signature_algorithms ss = Encodes-write_list16 Encodes-write_scheme ss

pub Encodes-write_signature_algorithms_cert :
    (ss : List SignatureScheme)
    → Encodes (write_signature_algorithms_cert ss) (list16 scheme_bytes ss)
unfolding write_signature_algorithms_cert
Encodes-write_signature_algorithms_cert ss = Encodes-write_list16 Encodes-write_scheme ss

module _ ⦃h : Heapless⦄ where
  -- A list of named groups no longer than the capacity of the vector, which is 13 at most, is
  -- encoded as exactly its bytes and read back from them.
  pub supported_groups-round_trip :
      (n : ℕ) (gs : List NamedGroup)
      → length gs ≤ n
      → n ≤ 13
      → Encodes (write_supported_groups gs) (list16 group_bytes gs)
        × Parses (read_supported_groups n) gs (list16 group_bytes gs)
  unfolding write_supported_groups read_supported_groups
  supported_groups-round_trip n gs fit small = (
    Encodes-write_list16 Encodes-write_group gs,
    Parses-read_list16 n read_group group_bytes gs (All-of Parses-read_group gs) (λ _. omega arith)
        fit (omega (arith, length-flat_map_width group_bytes 2 (λ _. refl) gs)),
  )

  -- A list of signature schemes no longer than the capacity of the vector, which is 25 at
  -- most, is encoded as exactly its bytes and read back from them.
  pub signature_algorithms-round_trip :
      (n : ℕ) (xs : List SignatureScheme)
      → length xs ≤ n
      → n ≤ 25
      → Encodes (write_signature_algorithms xs) (list16 scheme_bytes xs)
        × Parses (read_signature_algorithms n) xs (list16 scheme_bytes xs)
  unfolding write_signature_algorithms read_signature_algorithms
  signature_algorithms-round_trip n xs fit small = (
    Encodes-write_list16 Encodes-write_scheme xs,
    Parses-read_list16 n read_scheme scheme_bytes xs (All-of Parses-read_scheme xs)
        (λ _. omega arith) fit (omega (arith, length-flat_map_width scheme_bytes 2 (λ _. refl) xs)),
  )

  -- A list of versions below 2^16, no longer than the capacity of the vector, which is 127 at
  -- most, is encoded as exactly its bytes and read back from them.
  pub supported_versions-round_trip :
      (n : ℕ) (vs : List ℕ)
      → All (λ v. v < 2 ^ 16) vs
      → length vs ≤ n
      → n ≤ 127
      → Encodes (write_supported_versions vs) (list8 be16 vs)
        × Parses (read_supported_versions n) vs (list8 be16 vs)
  unfolding read_supported_versions
  supported_versions-round_trip n vs h fit small = (
    Encodes-write_supported_versions vs,
    Parses-read_list8 n read_version be16 vs (All-map Parses-read_version vs h) (λ _. omega arith)
        fit (omega (arith, length-flat_map_width be16 2 (λ _. refl) vs)),
  )

  -- A list of key exchange modes no longer than the capacity of the vector, which is 255 at
  -- most, is encoded as exactly its bytes and read back from them.
  pub psk_modes-round_trip :
      (n : ℕ) (ms : List PskKeyExchangeMode)
      → length ms ≤ n
      → n ≤ 255
      → Encodes (write_psk_modes ms) (list8 mode_bytes ms)
        × Parses (read_psk_modes n) ms (list8 mode_bytes ms)
  unfolding read_psk_modes
  psk_modes-round_trip n ms fit small = (
    Encodes-write_psk_modes ms,
    Parses-read_list8 n read_mode mode_bytes ms (All-of Parses-read_mode ms) (λ _. omega arith) fit
        (omega (arith, length-flat_map_width mode_bytes 1 (λ _. refl) ms)),
  )
