-- ===== src/Proxy.antt =====
-- The ingress proxy, home/rdm/proxy.
pub mod Framing
pub mod Router
pub mod Auth
pub mod Upstream
pub mod Server
mod Tests
