-- ===== src/Cmd.antt =====
-- clc/cmd: how a command declares its arguments, and how these are checked and converted.
pub mod Args
mod Tests
