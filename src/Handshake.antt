-- ===== src/Handshake.antt =====
-- The handshake messages of src/handshake.
pub mod CertificateVerify
pub mod Finished
pub mod ServerHello
pub mod NewSessionTicket
pub mod Certificate
pub mod CertificateRequest
pub mod Server
pub mod ClientHello
