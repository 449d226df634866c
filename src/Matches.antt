-- ===== src/Matches.antt =====
-- libs/matches: entities, the database behind its interface, and the three services.
pub mod Entity
pub mod Orm
pub mod World
pub mod Dto
pub mod MatchService
pub mod Confirmation
pub mod AdminOverride
pub mod Requests
pub mod Api
pub mod Pagination
pub mod Invariant
pub mod Lifecycle
pub mod Trail
pub mod Tests
