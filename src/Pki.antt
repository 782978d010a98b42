-- ===== src/Pki.antt =====
-- src/pki.rs: the parts of the certificate checks that do not read certificates.
pub mod Hostname
pub mod Chain
pub mod CertVerifier
