-- ===== src/Route.antt =====
-- src/lib/route: labels, rules, their configuration and the router.
pub mod Label
pub mod Externals
pub mod Rule
pub mod Config
pub mod Router
pub mod Ownership
mod Examples
