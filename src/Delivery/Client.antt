-- ===== src/Delivery/Client.antt =====
-- src/delivery/client.rs: delivery to a remote server. An operation takes the connection and gives it
-- back with a value, an error or a panic. `lossy` is `String::from_utf8_lossy`.
pub mod Capabilities
pub mod Reading
pub mod Body
pub mod Dialogue
pub mod Exchange
pub mod Deliver
