-- ===== src/Attachment.antt =====
-- internal/attachment: the entity (attachment.go), its error sentinels (errors.go), the repository
-- interface and its in-memory implementation, uploads, and the collector of orphaned blobs.
pub mod Entity
pub mod Repository
pub mod Memory
pub mod Collector
pub mod Upload
pub mod Service
pub mod Storage
pub mod Breakers
pub mod Handler
mod Tests
