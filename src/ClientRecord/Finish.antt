-- ===== src/ClientRecord/Finish.antt =====
-- What `finish_record` of src/record.rs does with a window that shows the message `p`.
use embedded_tls.Prelude.{ℕ, ◌≡◌, refl, Bool, true, false, List, overwrite}
use embedded_tls.Exec.{ok, pure, on_left_ok, then_ok}
use embedded_tls.Heapless.{Heapless}
use embedded_tls.Suite.{Suite}
use embedded_tls.Ecdh.{Ecdh}
use embedded_tls.Buffer.{CryptoBuffer, as_slice}
use embedded_tls.Codec.Alert.{Alert}
use embedded_tls.KeySchedule.Secrets.{WriteKeySchedule}
use embedded_tls.Handshake.ClientHello as Hello
use embedded_tls.Handshake.ClientHello.{ClientHello}
use embedded_tls.ClientRecord.{
  ClientHandshake, client_hello, handshake, alert, finish_record, finalize, finalize_encrypted,
  update_with, on_mut_slice,
}

module _ ⦃h : Heapless⦄ (c : Suite) (e : Ecdh) where
  pub finish_record-alert :
      (a : Alert) (encrypted : Bool) (b : CryptoBuffer) (s : c.digest.State × WriteKeySchedule)
      → finish_record c {e = e} (alert a encrypted) (b, s) ≡ (ok tt, (b, s))
  unfolding finish_record pure
  finish_record-alert a encrypted b s = refl

module _ ⦃h : Heapless⦄ (c : Suite) {e : Ecdh} where
  module _ (b : CryptoBuffer) (p : List ℕ) (t : c.digest.State) (k : WriteKeySchedule)
      (shows : as_slice b ≡ (ok p, b)) where
    pub finish_record-encrypted :
        (m : ClientHandshake e)
        → finish_record c (handshake m true) (b, (t, k)) ≡ (ok tt, (b, (c.digest.update t p, k)))
    unfolding finish_record finalize_encrypted update_with
    finish_record-encrypted m = then_ok _ _ (on_left_ok as_slice (t, k) shows) refl

    pub finish_record-hello :
        (hello : ClientHello e) (q : List ℕ) (t' : c.digest.State) (k' : WriteKeySchedule)
        → Hello.finalize c e hello (p, (t, k)) ≡ (ok tt, (q, (t', k')))
        → finish_record c (handshake (client_hello hello) false) (b, (t, k))
          ≡ (ok tt, (record b { buf = overwrite b.buf b.offset q }, (t', k')))
    unfolding finish_record finalize on_mut_slice
    finish_record-hello hello q t' k' runs =
        then_ok _ _ (on_left_ok as_slice (t, k) shows) (rw runs refl)
