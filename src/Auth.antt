-- ===== src/Auth.antt =====
-- src/auth: SPF, DMARC and DKIM.
pub mod Spf
pub mod Dmarc
pub mod Dkim
