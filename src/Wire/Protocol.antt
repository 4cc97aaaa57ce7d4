-- ===== src/Wire/Protocol.antt =====
-- The part of github.com/hazelcast/hazelcast-go-client that internal/proto/codec calls: frames,
-- client messages, UUIDs and the field sizes. It is not in this repository, so it is a parameter:
-- a record of operations with the documented behaviour that the codecs rely on.
--
-- A `ForwardFrameIterator` is given by the frames that it has left (`Frames`), so `Next` takes the
-- head. What it does behind the last frame is unknown: the model stops there with `none`.
use hazelcast_commandline_cl.Prelude.{
  ℕ, ◌+◌, ◌≤◌, ◌<◌, ◌^◌, ◌≡◌, Bool, true, false, List, [], ◌∷◌, ◌++◌, length,
}
use hazelcast_commandline_cl.Wire.Bytes.{Bytes, slice}

pub record Protocol : Type 1 where
  -- types.UUID
  pub Uuid : Type 0
  pub zero_uuid : Uuid
  pub is_default : Uuid → Bool
  pub msb : Uuid → ℕ
  pub lsb : Uuid → ℕ
  pub new_uuid_with : ℕ → ℕ → Uuid
  pub is_default-zero : (u : Uuid) → is_default u ≡ true → u ≡ zero_uuid
  pub new_uuid_with-bits : (u : Uuid) → new_uuid_with (msb u) (lsb u) ≡ u
  pub msb_range : (u : Uuid) → msb u < 256 ^ 8
  pub lsb_range : (u : Uuid) → lsb u < 256 ^ 8
  -- proto.ByteSizeInBytes and the other sizes and offsets of the initial frame
  pub byte_size : ℕ
  pub boolean_size : ℕ
  pub int_size : ℕ
  pub long_size : ℕ
  pub uuid_size : ℕ
  pub partition_id_offset : ℕ
  pub response_backup_acks_offset : ℕ
  pub boolean_size_lem : boolean_size ≡ 1
  pub int_size_lem : int_size ≡ 4
  pub long_size_lem : long_size ≡ 8
  pub uuid_size_lem : uuid_size ≡ 17
  -- proto.Frame
  pub Frame : Type 0
  pub content : Frame → Bytes
  pub new_frame : Bytes → Frame
  pub new_frame_with : Bytes → ℕ → Frame
  pub unfragmented_message : ℕ
  pub begin_data_structure_flag : ℕ
  pub end_data_structure_flag : ℕ
  pub begin_frame : Frame
  pub end_frame : Frame
  pub null_frame : Frame
  pub is_begin_frame : Frame → Bool
  pub is_end_frame : Frame → Bool
  pub is_null_frame : Frame → Bool
  pub content-new_frame : (b : Bytes) → content (new_frame b) ≡ b
  pub content-new_frame_with : (b : Bytes) (flags : ℕ) → content (new_frame_with b flags) ≡ b
  pub new_frame-begin : (b : Bytes) → is_begin_frame (new_frame b) ≡ false
  pub new_frame-end : (b : Bytes) → is_end_frame (new_frame b) ≡ false
  pub new_frame-null : (b : Bytes) → is_null_frame (new_frame b) ≡ false
  pub begin_frame-begin : is_begin_frame begin_frame ≡ true
  pub begin_frame-end : is_end_frame begin_frame ≡ false
  pub begin_frame-null : is_null_frame begin_frame ≡ false
  pub end_frame-end : is_end_frame end_frame ≡ true
  pub end_frame-null : is_null_frame end_frame ≡ false
  pub null_frame-null : is_null_frame null_frame ≡ true
  pub null_frame-end : is_end_frame null_frame ≡ false
  pub null_frame-begin : is_begin_frame null_frame ≡ false
  pub end_flag-end : is_end_frame (new_frame_with [] end_data_structure_flag) ≡ true
  -- proto.ClientMessage. The setters of the type and of the partition write into the header of the
  -- first frame (`stamp_type`, `stamp_partition`), and nowhere behind it.
  pub Message : Type 0
  pub new_message : Message
  pub frames : Message → List Frame
  pub message_type : Message → ℕ
  pub retryable : Message → Bool
  pub set_retryable : Bool → Message → Message
  pub add_frame : Frame → Message → Message
  pub set_message_type : ℕ → Message → Message
  pub set_partition_id : ℕ → Message → Message
  pub stamp_type : ℕ → Frame → Frame
  pub stamp_partition : ℕ → Frame → Frame
  pub frames-new : frames new_message ≡ []
  pub frames-set_retryable : (b : Bool) (m : Message) → frames (set_retryable b m) ≡ frames m
  pub frames-add_frame : (f : Frame) (m : Message) → frames (add_frame f m) ≡ frames m ++ (f ∷ [])
  pub frames-set_message_type :
      (t : ℕ) (m : Message) (f : Frame) (fs : List Frame)
      → frames m ≡ f ∷ fs
      → frames (set_message_type t m) ≡ stamp_type t f ∷ fs
  pub frames-set_partition_id :
      (i : ℕ) (m : Message) (f : Frame) (fs : List Frame)
      → frames m ≡ f ∷ fs
      → frames (set_partition_id i m) ≡ stamp_partition i f ∷ fs
  pub length-stamp_type :
      (t : ℕ) (f : Frame) → length (content (stamp_type t f)) ≡ length (content f)
  pub length-stamp_partition :
      (i : ℕ) (f : Frame) → length (content (stamp_partition i f)) ≡ length (content f)
  pub slice-stamp_type :
      (t : ℕ) (f : Frame) (o k : ℕ)
      → partition_id_offset + int_size ≤ o
      → slice (content (stamp_type t f)) o k ≡ slice (content f) o k
  pub slice-stamp_partition :
      (i : ℕ) (f : Frame) (o k : ℕ)
      → partition_id_offset + int_size ≤ o
      → slice (content (stamp_partition i f)) o k ≡ slice (content f) o k
  pub retryable-set_retryable : (b : Bool) (m : Message) → retryable (set_retryable b m) ≡ b
  pub retryable-add_frame : (f : Frame) (m : Message) → retryable (add_frame f m) ≡ retryable m
  pub retryable-set_message_type :
      (t : ℕ) (m : Message) → retryable (set_message_type t m) ≡ retryable m
  pub retryable-set_partition_id :
      (i : ℕ) (m : Message) → retryable (set_partition_id i m) ≡ retryable m
  pub type-set_message_type :
      (t : ℕ) (m : Message) (f : Frame) (fs : List Frame)
      → frames m ≡ f ∷ fs
      → message_type (set_message_type t m) ≡ t
  pub type-set_partition_id :
      (i : ℕ) (m : Message) → message_type (set_partition_id i m) ≡ message_type m
  pub type-add_frame :
      (g : Frame) (m : Message) (f : Frame) (fs : List Frame)
      → frames m ≡ f ∷ fs
      → message_type (add_frame g m) ≡ message_type m
