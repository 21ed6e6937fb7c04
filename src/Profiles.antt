-- ===== src/Profiles.antt =====
-- Profiles of projects, home/rdm/profiles.py.
pub mod Data
pub mod Validate
mod Tests
pub mod Clean
pub mod Ranges
pub mod Rules
pub mod Laws
pub mod GatewayPort
pub mod Opened
