-- ===== src/Proxy/Framing.antt =====
-- Request-head framing and validation, home/rdm/proxy/framing.py.
pub mod Head
pub mod Fields
pub mod Validate
pub mod Hop
mod Tests
pub mod Lengths
pub mod HopLaws
pub mod Safety
