-- ===== src/Codec.antt =====
-- The wire formats: enumerations by their codes, the record header, alerts and the
-- extensions.
pub mod Table
pub mod NamedGroup
pub mod SignatureScheme
pub mod ExtensionType
pub mod CipherSuite
pub mod HandshakeType
pub mod ContentType
pub mod AlertCodes
pub mod Alert
pub mod Lists
pub mod KeyShare
pub mod Vectors
pub mod Header
pub mod Selected
pub mod ServerName
