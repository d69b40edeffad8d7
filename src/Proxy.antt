-- ===== src/Proxy.antt =====
-- The proxy of examples/proxy.rs: for each client of its server it holds a connection of its own, and
-- hands the messages over in both directions.
pub mod Connection
pub mod Server
