-- ===== src/Matches/Tests.antt =====
-- The interface of the database filled by tables in memory, and the theorems at concrete inputs.
pub mod Memory
pub mod Story
mod Listing
mod Reads
mod Progress
mod Api
pub mod Lifecycle
mod Trail
mod Changes
