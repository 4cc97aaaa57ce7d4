-- ===== src/Wire.antt =====
-- The client protocol below the codecs: bytes, frames and messages, and the fields of a frame.
pub mod Bytes
pub mod Protocol
pub mod Fields
pub mod Layout
pub mod Sample
