-- ===== src/OperatorCa.antt =====
-- internal/operatorca: trust in operator CAs and the revocation of their certificates.
pub mod Base
pub mod Serial
pub mod Lru
pub mod Crl
pub mod Ocsp
pub mod Trust
pub mod Revocations
