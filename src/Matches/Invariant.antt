-- ===== src/Matches/Invariant.antt =====
-- What holds of every match in the database between requests, if each request runs by itself.
pub mod Defs
pub mod Outcomes
pub mod Service
pub mod Votes
pub mod Cancel
pub mod Override
pub mod History
pub mod Immutable
