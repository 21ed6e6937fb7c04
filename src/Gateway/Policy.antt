-- ===== src/Gateway/Policy.antt =====
-- Which tools the gateway exposes and which calls it lets through, home/rdm/gateway/policy.py and
-- data.py.
pub mod Paths
pub mod Names
pub mod Calls
pub mod Walks
pub mod PathLaws
pub mod NameLaws
pub mod CallLaws
