-- ===== src/Aead.antt =====
-- What the code relies on of the crate `aead`: `encrypt_in_place` of a cipher with a key, a nonce and the
-- additional data replaces the contents of a buffer that has room by the sealed text, which is longer by
-- the tag. `max_plain` is the longest text that the cipher takes. `decrypt_in_place` replaces a text that
-- `unseal` accepts by what it opens to, and fails on any other; what is sealed is opened by the same key,
-- nonce and additional data.
use embedded_tls.Prelude.{ℕ, Option, none, some, ◌+◌, ◌≤◌, ◌≡◌, List, length, overwrite}
use embedded_tls.Exec.{ok, IsErr}
use embedded_tls.Buffer.{CryptoBuffer, Write, contents}

-- The window holds `text` in place of its contents.
abbrev pub filled : CryptoBuffer → List ℕ → CryptoBuffer
filled b text = record b { buf = overwrite b.buf b.offset text; len = length text }

pub record Aead : Type 0 where
  pub tag_size : ℕ
  pub max_plain : ℕ
  pub seal : (key nonce additional_data plain : List ℕ) → List ℕ
  pub length-seal :
      (key nonce additional_data plain : List ℕ)
      → length (seal key nonce additional_data plain) ≡ length plain + tag_size
  pub encrypt_in_place : (key nonce additional_data : List ℕ) → Write (Unit {0})
  pub encrypt_in_place_ok :
      (key nonce additional_data : List ℕ) (b : CryptoBuffer)
      → b.offset + b.len + tag_size ≤ length b.buf
      → b.len ≤ max_plain
      → encrypt_in_place key nonce additional_data b
        ≡ (ok tt, filled b (seal key nonce additional_data (contents b)))
  pub unseal : (key nonce additional_data text : List ℕ) → Option (List ℕ)
  pub unseal-seal :
      (key nonce additional_data plain : List ℕ)
      → unseal key nonce additional_data (seal key nonce additional_data plain) ≡ some plain
  pub decrypt_in_place : (key nonce additional_data : List ℕ) → Write (Unit {0})
  pub decrypt_in_place_ok :
      (key nonce additional_data : List ℕ) (b : CryptoBuffer) (plain : List ℕ)
      → b.offset + b.len ≤ length b.buf
      → unseal key nonce additional_data (contents b) ≡ some plain
      → decrypt_in_place key nonce additional_data b ≡ (ok tt, filled b plain)
  pub decrypt_in_place_err :
      (key nonce additional_data : List ℕ) (b : CryptoBuffer)
      → b.offset + b.len ≤ length b.buf
      → unseal key nonce additional_data (contents b) ≡ none
      → IsErr (decrypt_in_place key nonce additional_data b).0
