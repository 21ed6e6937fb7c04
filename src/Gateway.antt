-- ===== src/Gateway.antt =====
-- The MCP gateway, home/rdm/gateway.
pub mod Policy
pub mod Manager
pub mod Content
pub mod Session
pub mod Server
pub mod Upstream
pub mod Snapshot
mod Tests
