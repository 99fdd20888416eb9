-- ===== src/Messages.antt =====
-- op_systems/server.c and op_systems/client.c: a server that prints messages, and a client that sends
-- one.
pub mod Server
pub mod Client
pub mod Delivery
mod Tests
