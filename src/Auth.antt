-- ===== src/Auth.antt =====
-- Users, sessions and second factors: internal/auth/auth.go and totp.go, and the handlers of
-- internal/api/server.go that log in with them.
pub mod Users
pub mod Sessions
pub mod Totp
pub mod Mfa
pub mod Login
pub mod Bootstrap
pub mod Cookies
pub mod Codes
pub mod Challenges
pub mod Entry
mod Tests
