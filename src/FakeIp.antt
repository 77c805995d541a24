-- ===== src/FakeIp.antt =====
-- src/lib/in/fake_ip_dns: the table of fake addresses, the authority that assigns them and the
-- resolver that translates them back.
pub mod Table
pub mod Authority
pub mod Resolver
pub mod Assignment
pub mod Invariant
pub mod RoundTrip
pub mod Lookup
pub mod Engine
mod Examples
