-- ===== src/Connection/Decrypt.antt =====
-- `decrypt_record` on what a peer has sealed.
use embedded_tls.Prelude.{
  ℕ, zero, suc, ◌+◌, ◌≤◌, ◌<◌, ◌≡◌, ◌≢◌, refl, sym, ap, ◌∙◌, List, [], ◌∷◌, ◌++◌, append_assoc,
  none, some, arith, length, length-append, length-replicate, length-take, take-take, length-drop,
  take, drop, replicate, take_all, take-append, length-overwrite, take-overwrite,
}
use embedded_tls.Exec.{
  IsErr, Result, panic, stuck, err, paired, relabel, continue, bind_err, ok, Exec, pure, gets,
  unwrap, map_err, scoped, sub, then_ok, ◌>>=◌, ◌>>◌,
}
use embedded_tls.Error.{TlsError, invalid_record, crypto_error}
use embedded_tls.Heapless.{Heapless}
use embedded_tls.Suite.{Suite}
use embedded_tls.Aead.{filled}
use embedded_tls.Buffer.{CryptoBuffer, contents}
use embedded_tls.Buffer.Moves.{as_slice_lem, truncate_lem}
use embedded_tls.Codec.ContentType.{ContentType, as_u8, of_code-as_u8}
use embedded_tls.Codec.Header.{RecordHeader}
use embedded_tls.KeySchedule.{get_nonce, increment_counter}
use embedded_tls.KeySchedule.Secrets.{ReadKeySchedule}
use embedded_tls.KeySchedule.Secrets.Expand.{require-some}
use embedded_tls.ServerRecord.{ServerRecord, application_data}
use embedded_tls.Connection.{
  Reading, header_bytes, last_nonzero, last_of, drop_padding, strip, pass_on, on_keys,
  decrypt_application_data, decrypt_record,
}

-- the plaintext of RFC 8446, section 5.4: the content, its type and padding
abbrev pub inner_plaintext : List ℕ → ContentType → ℕ → List ℕ
inner_plaintext content t padding = content ++ (as_u8 t ∷ replicate padding 0)

last_nonzero-replicate : (n : ℕ) → last_nonzero (replicate n 0) ≡ none
last_nonzero-replicate zero = refl
last_nonzero-replicate (suc n) = rw (last_nonzero-replicate n) refl

last_nonzero-padded :
    (xs : List ℕ) (x n : ℕ) → 0 < x → last_nonzero (xs ++ (x ∷ replicate n 0)) ≡ some (length xs)
last_nonzero-padded [] x n p = rw (last_nonzero, last_nonzero-replicate n) (ground arith)
last_nonzero-padded (y ∷ xs) x n p = rw (last_nonzero-padded xs x n p) refl

last_of-append : (xs : List ℕ) (x : ℕ) → last_of (xs ++ (x ∷ [])) ≡ some x
last_of-append [] x = refl
last_of-append (y ∷ []) x = refl
last_of-append (y ∷ z ∷ xs) x = last_of-append (z ∷ xs) x

as_u8-positive : (t : ContentType) → t ≢ ContentType.invalid → 0 < as_u8 t
unfolding as_u8
as_u8-positive ContentType.invalid h = absurd (h refl)
as_u8-positive ContentType.change_cipher_spec h = omega arith
as_u8-positive ContentType.alert h = omega arith
as_u8-positive ContentType.handshake h = omega arith
as_u8-positive ContentType.application_data h = omega arith

-- The front of what a window shows is shown by a shorter one.
contents-front :
    (b : CryptoBuffer) (front rest : List ℕ)
    → contents b ≡ front ++ rest
    → length front ≤ b.len
    → contents (record b { len = length front }) ≡ front
contents-front b front rest p h =
    sym (take-take (length front) b.len (drop b.offset b.buf) h)
    ∙ ap (take (length front)) p
    ∙ take-append front rest

length-contents : (b : CryptoBuffer) → b.offset + b.len ≤ length b.buf → length (contents b) ≡ b.len
length-contents b h =
    omega (arith, length-take b.len (drop b.offset b.buf), length-drop b.offset b.buf)

sub_one : (n : ℕ) (b : CryptoBuffer) → sub {E = TlsError} (n + 1) 1 b ≡ (ok n, b)
unfolding sub
sub_one n b = ground arith

map_err_ok :
    {S E F A : Type 0} (f : E → F) (m : Exec S E A) (s : S) {a : A} {s' : S}
    → m s ≡ (ok a, s')
    → map_err f m s ≡ (ok a, s')
unfolding map_err
map_err_ok f m s p = rw p

scoped_ok :
    {L S E A : Type 0} (l : L) (m : Exec L E A) (s : S) {a : A} {l' : L}
    → m l ≡ (ok a, l')
    → scoped l m s ≡ (ok (a, l'), s)
unfolding scoped
scoped_ok l m s p = rw p

-- A window that shows the plaintext is cut down to the content.
strip_lem :
    (b : CryptoBuffer) (content : List ℕ) (t : ContentType) (padding : ℕ)
    → b.offset + b.len ≤ length b.buf
    → contents b ≡ inner_plaintext content t padding
    → t ≢ ContentType.invalid
    → strip b ≡ (ok t, record b { len = length content })
unfolding strip gets pure unwrap
strip_lem b content t padding inside p valid =
    let n = length content in
    let bytes = content ++ (as_u8 t ∷ []) in
    let size : b.len ≡ n + suc padding =
      sym (length-contents b inside)
      ∙ ap length p
      ∙ length-append content (as_u8 t ∷ replicate padding 0)
      ∙ ap (λ k. n + suc k) (length-replicate padding 0) in
    let m : length bytes ≡ n + 1 = length-append content (as_u8 t ∷ []) in
    let b' : CryptoBuffer = record b { len = n + 1 } in
    let shown : contents b' ≡ bytes =
      ap (λ k. contents (record b { len = k })) (sym m)
      ∙ contents-front b bytes (replicate padding 0)
          (p ∙ sym (append_assoc content (as_u8 t ∷ []) (replicate padding 0))) (omega arith) in
    let cut : drop_padding (last_nonzero (contents b)) b ≡ (ok tt, b') =
      rw (p, last_nonzero-padded content (as_u8 t) padding (as_u8-positive t valid))
        (truncate_lem b (n + 1) (omega arith)) in
    let byte : unwrap {E = TlsError} (last_of (contents b')) b' ≡ (ok (as_u8 t), b') =
      ap (λ l. unwrap {E = TlsError} (last_of l) b') shown
      ∙ ap (λ o. unwrap {E = TlsError} o b') (last_of-append content (as_u8 t)) in
    let less : sub {E = TlsError} (n + 1) 1 b' ≡ (ok n, b') = sub_one n b' in
    then_ok _ _ (as_slice_lem b inside) (
      then_ok _ _ cut (
        then_ok _ _ (as_slice_lem b' (omega arith)) (
          then_ok _ _ byte (
            then_ok _ _ (require-some invalid_record b' (of_code-as_u8 t)) (
              then_ok _ _ refl
                (then_ok _ _ less (then_ok _ _ (truncate_lem b' n (omega arith)) refl)))))))

module _ ⦃h : Heapless⦄ (c : Suite) {H : Type 0} (cb : ServerRecord → Reading c H (Unit {0})) where
  -- the buffer of a record with `text` behind its header
  abbrev pub received : List ℕ → CryptoBuffer
  received text = record { buf = text; offset = 0; len = length text }

  -- For a record whose text was sealed under the server key, the nonce of its counter and the
  -- bytes of the header, around a content, its content type and any number of zeros,
  -- `decrypt_record` takes the zeros and the content type away, hands on what is left by its
  -- content type with the callback, in a buffer that shows exactly the content, and counts the
  -- record where that succeeds. It needs a nonce and a content type other than `Invalid`.
  pub decrypt_record-sealed :
      (header : RecordHeader) (content : List ℕ) (t : ContentType) (padding : ℕ) (nonce : List ℕ)
      (k : ReadKeySchedule c) (x : H)
      → get_nonce k.state ≡ ok nonce
      → t ≢ ContentType.invalid
      → let text =
          c.aead.seal k.state.key nonce (header_bytes header) (inner_plaintext content t padding) in
        let b = record (filled (received text) (inner_plaintext content t padding)) {
          len = length content;
        } in
        (decrypt_record c cb
            (application_data (record { header = header; contents = received text }))
            (k, x)
          ≡ (pass_on c cb header t b >> on_keys c increment_counter) (k, x))
        × (contents b ≡ content)
  unfolding decrypt_record decrypt_application_data gets
  decrypt_record-sealed header content t padding nonce k x e valid =
      let plain = inner_plaintext content t padding in
      let text = c.aead.seal k.state.key nonce (header_bytes header) plain in
      let long = c.aead.length-seal k.state.key nonce (header_bytes header) plain in
      let full : CryptoBuffer = filled (received text) plain in
      let inside : length plain ≤ length full.buf = omega (arith, length-overwrite text 0 plain) in
      let shown : contents full ≡ plain =
        take-overwrite text 0 (length plain) plain (omega arith) (omega arith) in
      let opened =
        c.aead.decrypt_in_place_ok k.state.key nonce (header_bytes header) (received text) plain
          (omega arith)
          (ap (c.aead.unseal k.state.key nonce (header_bytes header))
              (take_all (length text) text (omega arith))
            ∙ c.aead.unseal-seal k.state.key nonce (header_bytes header) plain) in
      let local =
        then_ok _ _ (map_err_ok (λ _. crypto_error) _ (received text) opened)
          (strip_lem full content t padding (omega arith) shown valid) in
      (
        then_ok _ _ refl (
            then_ok _ _ (ap (λ r. (r, (k, x))) e)
              (then_ok _ _ (scoped_ok (received text) _ (k, x) local) refl)),
        contents-front full content _ shown
            (omega (arith, length-append content (as_u8 t ∷ replicate padding 0))),
      )

-- Another error for a failure, and what follows is not run.
scoped_err :
    {L S A : Type 0} (l : L) (m : Exec L TlsError (Unit {0})) (n : Exec L TlsError A) (s : S)
    → IsErr (m l).0
    → scoped l (map_err (λ _. crypto_error) m >> n) s ≡ (err crypto_error, s)
unfolding scoped map_err ◌>>=◌
scoped_err {L = L} l m n s h = ap (λ q. (q, s)) (go (m l).0 (m l).1 h)
  where
    go :
        (r : Result TlsError (Unit {0})) (l' : L)
        → IsErr r
        → (let out = continue (relabel (λ _. crypto_error) r) (λ _. n) l' in paired out.0 out.1)
          ≡ err crypto_error
    go (err _) l' h = refl
    go (ok _) l' h = absurd h
    go panic l' h = absurd h
    go stuck l' h = absurd h

module _ ⦃h : Heapless⦄ (c : Suite) {H : Type 0} (cb : ServerRecord → Reading c H (Unit {0})) where
  -- For a record whose text the cipher does not open under the server key, the nonce of its
  -- counter and the bytes of its header, `decrypt_record` fails with a `CryptoError`: the
  -- callback is not run, and the key schedule with its transcript and counter and what the
  -- callback holds are as they were. It needs a nonce.
  pub decrypt_record-refused :
      (header : RecordHeader) (text nonce : List ℕ) (k : ReadKeySchedule c) (x : H)
      → get_nonce k.state ≡ ok nonce
      → c.aead.unseal k.state.key nonce (header_bytes header) text ≡ none
      → decrypt_record c cb
          (application_data (record { header = header; contents = received c cb text }))
          (k, x)
        ≡ (err crypto_error, (k, x))
  unfolding decrypt_record decrypt_application_data gets
  decrypt_record-refused header text nonce k x e p =
      let shown =
        ap (c.aead.unseal k.state.key nonce (header_bytes header))
          (take_all (length text) text (omega arith)) in
      let failed =
        c.aead.decrypt_in_place_err k.state.key nonce (header_bytes header) (received c cb text)
          (omega arith) (shown ∙ p) in
      then_ok _ _ refl (
        then_ok _ _ (ap (λ r. (r, (k, x))) e)
          (bind_err _ _ (scoped_err (received c cb text) _ strip (k, x) failed)))
