-- ===== src/Plug.antt =====
-- internal/plug: the properties that commands read.
pub mod Properties
mod Tests
