-- ===== src/Api.antt =====
-- cmd/api: how the domain packages are put together.
pub mod Cascade
mod Tests
