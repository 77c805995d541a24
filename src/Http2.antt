-- ===== src/Http2.antt =====
-- src/lib/tunnel/http2: the tunnels over HTTP/2 connections.
pub mod Lifetime
pub mod Headers
pub mod WindowSize
pub mod Streams
pub mod Pending
pub mod Accept
