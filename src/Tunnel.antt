-- ===== src/Tunnel.antt =====
-- src/lib/tunnel: the tunnels between IN and OUT.
pub mod Bytes
pub mod Utf8
pub mod ByteStream
mod Examples
