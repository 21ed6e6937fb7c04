-- ===== src/Cockpit.antt =====
-- The cockpit, home/rdm/ui: its sessions, its actions and its HTTP server.
pub mod Auth
pub mod Server
pub mod Handlers
pub mod Reads
pub mod Laws
pub mod Events
mod Tests
