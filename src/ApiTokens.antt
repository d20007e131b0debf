-- ===== src/ApiTokens.antt =====
-- internal/apitokens/apitokens.go: bearer tokens for integrations.
pub mod Format
pub mod Service
pub mod Access
mod Tests
