-- ===== src/Registry.antt =====
-- The batch job registries of openeogeotrellis/job_registry.py.
pub mod Info
pub mod Zk
pub mod Interface
pub mod Memory
pub mod Double
