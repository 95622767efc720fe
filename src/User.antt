-- ===== src/User.antt =====
-- internal/user: the entities (user.go), their error sentinels (errors.go), the repository interface
-- and its in-memory implementation, the token cache, the login backoff, the password rules, the
-- service, the session middleware, and the handler.
pub mod Entity
pub mod Repository
pub mod Memory
pub mod TokenCache
pub mod Backoff
pub mod WeakPasswords
pub mod Password
pub mod Breaker
pub mod Process
pub mod Service
pub mod Auth
pub mod Answers
pub mod Handler
mod Tests
