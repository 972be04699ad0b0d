-- ===== src/Ipc.antt =====
-- The wire format of the node's local pipe, src/proto/ipc.
pub mod Frame
pub mod Handshake
