-- ===== src/Dns.antt =====
-- src/dns: errors, records, and the cache of answers.
pub mod Error
pub mod Records
pub mod Resolver
pub mod Cache
