-- ===== src/ReadBuffer/Stream.antt =====
-- The bytes of a record reach the reader in order, each once.
use embedded_tls.Prelude.{
  ℕ, ◌+◌, ◌-◌, ◌≤◌, ◌≡◌, refl, sym, ap₂, ◌∙◌, true, false, List, ◌++◌, arith, length, length-take,
  length-drop, take, drop, drop-drop, take-append-drop, take-overwrite, drop-overwrite, drop-take,
  overwrite, min, le→leb,
}
use embedded_tls.Exec.{Result, ok, bind_ok, sub, ◌>>=◌}
use embedded_tls.Error.{TlsError}
use embedded_tls.ReadBuffer.{
  ReadBuffer, new, peek, pop, pop_into, drop_buffer, DecryptedBufferInfo, create_read_buffer,
  info_is_empty, info_len, hand_over, deliver,
}

pub record IsValid (b : ReadBuffer) : Type 0 where
  pub inside : b.consumed ≤ length b.bytes

-- what is still to be read
abbrev pub unread : ReadBuffer → List ℕ
unread b = drop b.consumed b.bytes

-- how many bytes a request for `n` gets
abbrev pub granted : ℕ → ReadBuffer → ℕ
granted n b = min (length b.bytes - b.consumed) n

abbrev pub popped : ℕ → ReadBuffer → ReadBuffer
popped n b = record b { consumed = b.consumed + granted n b; used = true }

pub pop_lem :
    (n : ℕ) (b : ReadBuffer)
    → IsValid b
    → pop n b ≡ (ok (take (granted n b) (unread b)), popped n b)
unfolding pop
pop_lem n b v = ground arith

peek_lem :
    (n : ℕ) (b : ReadBuffer)
    → IsValid b
    → peek n b ≡ (ok (take (granted n b) (unread b)), record b { used = true })
unfolding peek
peek_lem n b v = ground arith

split_unread :
    (m : ℕ) (b : ReadBuffer) → take m (unread b) ++ drop (b.consumed + m) b.bytes ≡ unread b
split_unread m b =
    rw (← drop-drop b.consumed m (b.consumed + m) b.bytes refl) (take-append-drop m (unread b))

length-granted :
    (n : ℕ) (b : ReadBuffer) → length (take (granted n b) (unread b)) ≡ min n (length (unread b))
length-granted n b =
    omega (arith, length-take (granted n b) (unread b), length-drop b.consumed b.bytes)

-- Where the cursor lies inside the bytes, `pop` never panics and gives as many bytes as were
-- asked for or are left, whichever is less; these, followed by what is then unread, are what
-- was unread.
pub pop-unread :
    (n : ℕ) (b : ReadBuffer)
    → IsValid b
    → (bs : List ℕ) × ((pop n b).0 ≡ ok bs)
      × (bs ++ unread (pop n b).1 ≡ unread b)
      × (length bs ≡ min n (length (unread b)))
      × IsValid (pop n b).1
pop-unread n b v = (
  take (granted n b) (unread b),
  rw (pop_lem n b v),
  rw (pop_lem n b v) (split_unread (granted n b) b),
  length-granted n b,
  rw (pop_lem n b v) (record { inside = omega arith }),
)

-- Where the cursor lies inside the bytes, `peek` gives what `pop` would give and leaves all of
-- it unread.
pub peek-pop :
    (n : ℕ) (b : ReadBuffer)
    → IsValid b
    → ((peek n b).0 ≡ (pop n b).0) × (unread (peek n b).1 ≡ unread b)
peek-pop n b v = (rw (peek_lem n b v, pop_lem n b v), rw (peek_lem n b v))

pub record InfoIsValid (buffer : List ℕ) (i : DecryptedBufferInfo) : Type 0 where
  pub inside : i.offset + i.len ≤ length buffer
  pub behind : i.consumed ≤ i.len

-- the decrypted bytes that no reader has had yet
abbrev pub pending : List ℕ → DecryptedBufferInfo → List ℕ
pending buffer i = take (i.len - i.consumed) (drop (i.offset + i.consumed) buffer)

abbrev start_of : List ℕ → DecryptedBufferInfo → ReadBuffer
start_of buffer i = record {
  bytes = pending buffer i;
  consumed = 0;
  used = false;
  decrypted_consumed = i.consumed;
}

create_read_buffer_lem :
    (buffer : List ℕ) (i : DecryptedBufferInfo)
    → InfoIsValid buffer i
    → create_read_buffer buffer i ≡ (ok (start_of buffer i), i)
unfolding create_read_buffer new
create_read_buffer_lem buffer i v = ground arith

hand_over_lem :
    (buf : List ℕ) (b : ReadBuffer) (i : DecryptedBufferInfo)
    → IsValid b
    → let bs = take (granted (length buf) b) (unread b) in
      hand_over buf b i ≡ (
        ok (overwrite buf 0 bs, length bs),
        record i { consumed = b.decrypted_consumed + (b.consumed + granted (length buf) b) },
      )
unfolding hand_over pop_into drop_buffer
hand_over_lem buf b i v = rw (bind_ok (pop (length buf)) _ (pop_lem (length buf) b v))

-- `n` bytes are delivered, as many as the caller's slice has room for or are pending, whichever is
-- less: the front of the slice and what stays pending are what was pending, the rest of the slice is as
-- it was, and the window stays inside the buffer.
pub record Delivered (buffer buf : List ℕ) (i : DecryptedBufferInfo)
    (out : Result TlsError (List ℕ × ℕ) × DecryptedBufferInfo) : Type 0 where
  pub dest : List ℕ
  pub count : ℕ
  pub returned : out.0 ≡ ok (dest, count)
  pub amount : count ≡ min (length buf) (length (pending buffer i))
  pub in_order : take count dest ++ pending buffer out.1 ≡ pending buffer i
  pub behind : drop count dest ≡ drop count buf
  pub valid : InfoIsValid buffer out.1

pub info_is_empty-InfoIsValid :
    (buffer : List ℕ) (i : DecryptedBufferInfo)
    → InfoIsValid buffer i
    → InfoIsValid buffer (info_is_empty i).1
unfolding info_is_empty info_len sub ◌>>=◌
info_is_empty-InfoIsValid buffer i v = rw (le→leb i.consumed i.len v.behind) v

-- What stays pending after `g` more bytes.
pending_after :
    (buffer : List ℕ) (i : DecryptedBufferInfo) (g c : ℕ)
    → c ≡ i.consumed + g
    → pending buffer (record i { consumed = c }) ≡ drop g (pending buffer i)
pending_after buffer i g c e =
    ap₂ take (omega arith)
      (sym (drop-drop (i.offset + i.consumed) g (i.offset + c) buffer (omega arith)))
    ∙ sym (drop-take g (i.len - i.consumed) (drop (i.offset + i.consumed) buffer))

-- Where the window of the decrypted bytes lies inside the record buffer, a read never panics.
-- It hands over as many bytes as the slice of the caller has room for or are pending,
-- whichever is less. These bytes, followed by the bytes that stay pending, are the bytes that
-- were pending; the rest of the slice is as it was, and the window still lies inside the
-- buffer.
pub deliver-Delivered :
    (buffer buf : List ℕ) (i : DecryptedBufferInfo)
    → InfoIsValid buffer i
    → Delivered buffer buf i (deliver buffer buf i)
unfolding deliver
deliver-Delivered buffer buf i v =
    let b = start_of buffer i in
    let g = granted (length buf) b in
    let bs = take g (unread b) in
    let lg = length-granted (length buf) b in
    let lp = length-take (i.len - i.consumed) (drop (i.offset + i.consumed) buffer) in
    let lt = length-take g (unread b) in
    rw
      (
        bind_ok (create_read_buffer buffer) _ (create_read_buffer_lem buffer i v),
        hand_over_lem buf b i (record { inside = omega arith }),
      )
      (record {
        dest = overwrite buf 0 bs;
        count = length bs;
        returned = refl;
        amount = lg;
        in_order =
            ap₂ ◌++◌ (take-overwrite buf 0 (length bs) bs (omega (arith, lg)) (omega arith))
              (pending_after buffer i g _ (omega arith))
            ∙ take-append-drop g (pending buffer i);
        behind = drop-overwrite buf 0 (length bs) bs (omega arith);
        valid = record { inside = v.inside; behind = omega (arith, lp) };
      })
