-- ===== src/Auth.antt =====
-- libs/auth and apps/auth: refresh tokens and their rotation, and the guards of the routes.
pub mod RefreshToken
pub mod Rotation
pub mod Guards
pub mod Access
pub mod Logout
pub mod SignIn
pub mod App
pub mod Memory
mod Tests
