-- ===== src/FileTransfer.antt =====
-- op_systems/file_transfer: the server stores what a client sends, after a handshake about its size.
pub mod Server
pub mod Client
pub mod Transfer
pub mod Delivery
mod Tests
