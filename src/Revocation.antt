-- ===== src/Revocation.antt =====
-- crl.go and ocsp.go: whether a certificate has been revoked, from a revocation list that is kept up to
-- date and from a responder that is asked.
pub mod Crl
pub mod Ocsp
