-- ===== src/Tracker.antt =====
-- The job tracker, openeogeotrellis/job_tracker_v2.py, and what it reads of applications.
pub mod States
pub mod Metadata
pub mod Services
pub mod Sync
