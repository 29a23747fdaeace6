-- ===== src/Protocol.antt =====
-- internal/protocol: the wire formats.
pub mod Binary
pub mod RelayWire
pub mod Gpgnet
pub mod JsonRpc
