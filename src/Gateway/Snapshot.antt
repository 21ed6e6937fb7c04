-- ===== src/Gateway/Snapshot.antt =====
-- The pinned snapshot of the owner's servers, home/rdm/gateway/snapshot.py.
pub mod Data
pub mod Build
pub mod Load
pub mod Dicts
pub mod Laws
pub mod Verified
mod Tests
