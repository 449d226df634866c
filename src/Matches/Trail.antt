-- ===== src/Matches/Trail.antt =====
-- The audit log (`audit_logs`, written by admin-override.service.ts) over histories of requests.
pub mod Writes
pub mod Requests
pub mod Entries
pub mod Confirmed
