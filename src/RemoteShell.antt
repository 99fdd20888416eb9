-- ===== src/RemoteShell.antt =====
-- op_systems/remoteShell: a shell server with a thread for each client, and its client.
pub mod Server
pub mod Client
pub mod Typed
mod Tests
