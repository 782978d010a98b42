-- ===== src/Lib.antt =====
-- embedded-tls: a TLS 1.3 client without an allocator.
--
-- A connection turns its configuration into handshake messages, writes them through `CryptoBuffer`
-- into records, reads records from a transport, parses what comes back by `ParseBuffer`, and hands the
-- decrypted application data to the caller through `ReadBuffer`.
--
-- Which file models which part:
--   Prelude, Prelude/*        lists, bytes and words over the native numbers, lemmas on them
--   Exec                      results (a value, an error, a panic) and actions on an object
--   Error                     `TlsError` of src/lib.rs, `ParseError`, alert levels and descriptions
--   Heapless                  what the code relies on of the crate heapless, as a record of operations and laws
--   Buffer, Buffer/*          src/buffer.rs: `CryptoBuffer`; `move_to` is its `offset`
--   Parse, Parse/*            src/parse_buffer.rs: `ParseBuffer`
--   Codec, Codec/*            the codes of the enums, src/alert.rs, the headers of src/record.rs, and
--                             the extensions of src/extensions/extension_data
--   ReadBuffer, ReadBuffer/*  src/read_buffer.rs and src/common/decrypted_buffer_info.rs
--   Aead                      what the code relies on of the crate aead: a record of operations and laws
--   Digest, Hkdf, Suite       what the code relies on of the crates digest, hkdf and hmac, and the types of a
--                             cipher suite of src/config.rs
--   KeySchedule, *            src/key_schedule.rs: Nonce the counter and the nonces of one direction, Secrets
--                             the secrets, their order, the Finished messages and the binder
--   Extensions, *             src/extensions/extension_group_macro.rs, with the groups of
--                             src/extensions/messages.rs that a client reads, and the one that it writes
--   WriteBuffer, *            src/write_buffer.rs and `encrypt` of src/connection.rs; WriteRecord `write_record`
--   RecordReader, *           src/record_reader.rs up to the call of ServerRecord::decode; the functions
--                             with `.await` and the blocking ones have one text
--   Handshake, *              the messages of src/handshake, and TlsConfig of src/config.rs in ClientHello; Server is
--                             src/handshake/mod.rs
--   Ecdh, Verifier, Provider  what the code relies on of the crate p256 and of the caller's CryptoProvider
--   Transport                 what the code relies on of the crate embedded-io
--   ClientRecord, *           ClientHandshake of src/handshake/mod.rs and ClientRecord of src/record.rs
--   ServerRecord              ServerRecord of src/record.rs, and src/application_data.rs
--   Simulation                when two actions run alike, for proofs
--   Connection, *             src/connection.rs: decrypt_record; Steps the steps that take a record of the server,
--                             and the last one; Receive the reader with the decoder; ReadHandler
--                             src/common/decrypted_read_handler.rs; Process the steps that send, and the state
--                             machine
--   Blocking, *               src/blocking.rs: TlsConnection; Open its `open`, Read its reading half; src/asynch.rs
--                             has the same text but for `.await`
--   FlushPolicy               src/flush_policy.rs
--   Config, *                 how a TlsConfig of src/config.rs is built
--   Pki, *                    src/pki.rs: the match of host names, the chain of
--                             certificates, and CertVerifier
--   Tests, Tests/*            runs at concrete inputs
--
-- State and operations: a struct is a record, and a method that takes `&mut self` is an action
-- `Exec S E A`, a function from the state to a result and the state. A result is a value, an error, a
-- panic, or `stuck`, which no Rust code returns: a loop of the model that ran out of fuel. A borrowed
-- array is a list of bytes that keeps its length. The
-- model is of a debug build: a debug assertion that does not hold panics.
--
-- A callback is an action on what it is given and on what it holds. The buffer of a decrypted record is
-- part of the reader's array, which has stepped past it: here it is a list of its own.
--
-- Fuel: `read_while`, the loop of `read_list`, takes as many rounds as the slice has bytes. Each round
-- reads a byte at least where the element parser does. The loops over extensions and over the
-- messages of a record are the same. `fill_header` takes 5 rounds and `receive` as
-- many as the record has bytes: each round that goes on has read a byte. The loop over a chain of certificates takes
-- one round more than there are certificates. The loops of `open` and of
-- `read_buffered` take a number of rounds as an argument, since a server may send as many records as it
-- likes that end neither.
--
-- Integers are natural numbers; what a cast cuts off is written out. A subtraction that would be
-- negative panics. A `usize` is taken to hold the sums of positions and lengths of arrays in memory.
--
-- Not modelled: the parser of the extension group of the client hello and the encoders of the others, the
-- halves of a connection that `split` lends, its `fill_buf` and `consume`, the checks of one certificate and
-- of one signature in src/pki.rs, which are arguments of the model's `CertVerifier`, src/der_certificate.rs,
-- and the providers that src/config.rs comes with. The trait objects of the crates are records of
-- operations and laws. `copy` of `ParseBuffer`, logging and formatting.
pub mod Aead
pub mod Blocking
pub mod Buffer
pub mod ClientRecord
pub mod Codec
pub mod Config
pub mod Connection
pub mod Digest
pub mod Ecdh
pub mod Error
pub mod Exec
pub mod Extensions
pub mod FlushPolicy
pub mod Handshake
pub mod Heapless
pub mod Hkdf
pub mod KeySchedule
pub mod Parse
pub mod Pki
pub mod Prelude
pub mod Provider
pub mod ReadBuffer
pub mod RecordReader
pub mod ServerRecord
pub mod Simulation
pub mod Suite
pub mod Tests
pub mod Transport
pub mod Verifier
pub mod WriteBuffer
