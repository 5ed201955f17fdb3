-- ===== src/Smtp.antt =====
-- The SMTP side of the server: src/smtp/.
pub mod Response
pub mod Command
pub mod Session
pub mod Server
