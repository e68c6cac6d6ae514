-- ===== src/Hosts.antt =====
-- hosts/registry.py, hosts/models.py and hosts/router.py: which hosts are online, by their
-- heartbeats, and which of them a job is given to.
pub mod Registry
pub mod Router
pub mod Expiry
pub mod Choice
