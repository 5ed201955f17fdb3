-- ===== src/Tests.antt =====
-- Tests on concrete inputs, and the theorems at inputs that meet their hypotheses.
mod Server
mod Session
mod Command
mod Parser
mod Queue
mod Dns
mod Delivery
mod Utf8
mod Client
mod Resolver
mod Config
mod Dkim
mod Auth
mod Spool
mod Http
mod Interop
mod Smuggled
