-- ===== src/Http.antt =====
-- src/http: injection of messages over HTTP.
pub mod Api
