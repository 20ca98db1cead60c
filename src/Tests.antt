-- ===== src/Tests.antt =====
-- The theorems at concrete inputs: numbers that are natural numbers, payloads that are dicts, the
-- in-memory ZooKeeper client and the in-memory job registry.
mod Data
mod Nodes
mod Scans
mod Udps
mod Services
mod OneJob
mod Batch
mod Polling
mod Cancel
mod Registries
mod Values
mod Tracking
mod Reports
