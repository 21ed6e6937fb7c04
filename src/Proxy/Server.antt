-- ===== src/Proxy/Server.antt =====
-- The request loop of the ingress proxy, home/rdm/proxy/server.py.
pub mod Stream
pub mod Access
