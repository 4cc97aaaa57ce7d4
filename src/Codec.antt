-- ===== src/Codec.antt =====
-- internal/proto/codec: the codecs of the Hazelcast client protocol, over the frames and messages of
-- `Wire.Protocol`.
pub mod Builtin
pub mod Carries
pub mod Requests
pub mod Calls
pub mod Summary
pub mod Responses
mod Tests
