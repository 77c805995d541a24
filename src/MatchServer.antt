-- ===== src/MatchServer.antt =====
-- src/lib/match_server: how an IN and an OUT find each other over Redis.
pub mod Keys
pub mod Crypt
pub mod Accept
pub mod Messages
pub mod Lock
