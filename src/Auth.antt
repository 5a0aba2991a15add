-- ===== src/Auth.antt =====
-- internal/auth: signing in with OpenID Connect, and the signed session cookie.
pub mod Config
pub mod Claims
pub mod Session
pub mod Login
pub mod Cookies
pub mod Redirects
pub mod Admission
pub mod Rounds
pub mod Groups
pub mod Settings
pub mod Start
mod Tests
