-- ===== src/Codec/Requests.antt =====
-- The requests: each encoder of internal/proto/codec makes the bytes of the initial frame, and then
-- the message. (The source makes the frame first and writes into its slice, which the frame shares.)
pub mod Jet
pub mod ListOps
pub mod MapOps
pub mod MultiMapOps
pub mod OtherOps
use hazelcast_commandline_cl.Prelude.{ℕ, ◌+◌, Bool}
use hazelcast_commandline_cl.Wire.Bytes.{Bytes}
use hazelcast_commandline_cl.Wire.Protocol.{Protocol}

-- int32(-1)
abbrev pub no_partition : ℕ
no_partition = 0xffff_ffff

module _ (p : Protocol) where
  open p use {
    Message, new_message, set_retryable, add_frame, new_frame_with, unfragmented_message,
    set_message_type, set_partition_id, partition_id_offset, int_size,
  }

  -- `proto.PartitionIDOffset + proto.IntSizeInBytes`: where the fields of a request begin.
  abbrev pub first_field_offset : ℕ
  first_field_offset = partition_id_offset + int_size

  -- What every encoder does around the fields of the initial frame.
  unfoldable pub request : Bool → Bytes → ℕ → Message
  request retryable initial_content message_type =
      let client_message = set_retryable retryable new_message in
      let initial_frame = new_frame_with initial_content unfragmented_message in
      set_partition_id no_partition
        (set_message_type message_type (add_frame initial_frame client_message))
