-- ===== src/Link.antt =====
-- internal/link: the service and the handler of the shortened links. The shortener and its store are
-- the cairn library's.
pub mod Service
pub mod Handler
pub mod Ownership
mod Tests
