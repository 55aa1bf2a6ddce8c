-- ===== src/Certificate.antt =====
-- src/certificate.cpp: the pairing secret and the device's identity. OpenSSL is a parameter.
pub mod Hex
pub mod Split
pub mod Openssl
pub mod Secret
pub mod Identity
pub mod Disk
pub mod Issuing
pub mod Numbers
pub mod Names
pub mod Files
