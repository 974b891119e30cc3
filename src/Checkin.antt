-- ===== src/Checkin.antt =====
-- The check-in domain (internal/checkin): door scans, their log, and reverts.
pub mod Scan
pub mod Trail
pub mod Repeats
pub mod Always
