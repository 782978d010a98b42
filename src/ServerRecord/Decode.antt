-- ===== src/ServerRecord/Decode.antt =====
-- `ServerRecord::decode` never panics.
use embedded_tls.Prelude.{ℕ, ◌≡◌, List, some, arith, length, ==_iff}
use embedded_tls.Exec.{
  Result, ok, err, panic, stuck, Returns, pure, raise, unwrap, continue, with_local, ◌>>=◌,
}
use embedded_tls.Error.{TlsError}
use embedded_tls.Heapless.{Heapless}
use embedded_tls.Digest.{Digest}
use embedded_tls.Parse
use embedded_tls.Parse.{new}
use embedded_tls.Codec.Alert
use embedded_tls.Codec.Alert.{Alert, parse-Total}
use embedded_tls.Codec.ContentType.{ContentType}
use embedded_tls.Codec.Header.{RecordHeader, content_type, content_length}
use embedded_tls.Handshake.Server.Transcript.{read_server_handshake-Reads}
use embedded_tls.ServerRecord.{
  ServerRecord, alert, handshake, assert_true, decode_payload, decode_record,
}

-- A value that is made of the result of what returns.
Returns-continue :
    {S A : Type 0} (r : Result TlsError A) (f : A → ServerRecord) (s : S)
    → Returns r
    → Returns (continue r (λ a. pure (f a)) s).0
unfolding pure
Returns-continue (ok a) f s h = tt
Returns-continue (err e) f s h = tt
Returns-continue panic f s h = absurd h
Returns-continue stuck f s h = absurd h

module _ ⦃h : Heapless⦄ (d : Digest) where
  decode_payload-Returns :
      (t : ContentType) (header : RecordHeader) (payload : List ℕ) (transcript : d.State)
      → Returns (decode_payload d t header payload transcript).0
  unfolding decode_payload with_local raise pure new ◌>>=◌
  decode_payload-Returns ContentType.invalid header payload t = tt
  decode_payload-Returns ContentType.change_cipher_spec header payload t = tt
  decode_payload-Returns ContentType.alert header payload t =
      Returns-continue (Alert.parse (Parse.new payload)).0 alert t
        (parse-Total.at (Parse.new payload) (omega arith)).returns
  decode_payload-Returns ContentType.handshake header payload t =
      Returns-continue _ handshake _
        (read_server_handshake-Reads d (Parse.new payload) t (omega arith)).returns
  decode_payload-Returns ContentType.application_data header payload t = tt

  -- For a header of a known content type and a payload of the length that it announces, as the
  -- record reader cuts them out, `ServerRecord::decode` returns a record or an error, whatever
  -- the payload is: it does not panic, and its loops end.
  pub decode_record-Returns :
      (header : RecordHeader) (payload : List ℕ) (transcript : d.State) (t : ContentType)
      → content_length header ≡ length payload
      → content_type header ≡ some t
      → Returns (decode_record d header payload transcript).0
  unfolding decode_record assert_true unwrap ◌>>=◌
  decode_record-Returns header payload transcript t p q =
      rw ((==_iff (content_length header) (length payload)).1 p, q)
        (decode_payload-Returns t header payload transcript)
