-- ===== src/Message.antt =====
-- The message and its envelope: src/message/.
pub mod Envelope
pub mod Parser
