-- ===== src/Delivery.antt =====
-- src/delivery: errors, results of each recipient, and where a domain's mail goes.
pub mod Error
pub mod Outcome
pub mod MxResolve
pub mod Connector
pub mod Client
