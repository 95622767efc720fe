-- ===== src/Task.antt =====
-- internal/task: the entity (task.go), its error sentinels (errors.go), the repository interface
-- and its implementations, the service.
pub mod Entity
pub mod Repository
pub mod Memory
pub mod Contract
pub mod Breaker
pub mod Cached
pub mod Handler
pub mod Service
pub mod Tests
