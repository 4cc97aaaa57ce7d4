-- ===== src/Jobs.antt =====
-- base/commands/job/common.go, and the states of internal/jet: how jobs are named, found and waited
-- for.
pub mod Ids
pub mod Finding
pub mod Waiting
mod Tests
