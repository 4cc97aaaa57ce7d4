-- ===== src/Shell.antt =====
-- clc/shell and base/commands/shell_script_common.go: how statements are read.
pub mod Reading
pub mod Statements
mod Tests
