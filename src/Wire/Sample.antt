-- ===== src/Wire/Sample.antt =====
-- A client library that behaves as `Protocol` asks: the parameter of the codecs can be met.
use hazelcast_commandline_cl.Prelude.{
  ℕ, ◌<◌, ◌^◌, ◌≡◌, refl, Bool, true, false, List, [], ◌∷◌, ◌++◌, ◌==◌, ◌&&◌, arith, if◌then◌else◌,
}
use hazelcast_commandline_cl.Wire.Bytes.{Bytes}
use hazelcast_commandline_cl.Wire.Protocol.{Protocol}

-- The zero UUID, and that of one member.
pub data SampleUuid : Type 0 where
  zero_member first_member : SampleUuid

pub record SampleFrame : Type 0 where
  pub content : Bytes
  pub flags : ℕ

pub record SampleMessage : Type 0 where
  pub frames : List SampleFrame
  pub message_type : ℕ
  pub retryable : Bool
  pub partition_id : ℕ

unfoldable pub is_zero : SampleUuid → Bool
is_zero zero_member = true
is_zero first_member = false

unfoldable pub most : SampleUuid → ℕ
most zero_member = 0
most first_member = 0x0123_4567_89ab_cdef

unfoldable pub least : SampleUuid → ℕ
least zero_member = 0
least first_member = 0xfedc_ba98_7654_3210

unfoldable pub from_bits : ℕ → ℕ → SampleUuid
from_bits m l =
    if m == 0x0123_4567_89ab_cdef && l == 0xfedc_ba98_7654_3210 then first_member else zero_member

pub is_zero_lem : (u : SampleUuid) → is_zero u ≡ true → u ≡ zero_member
unfolding is_zero
is_zero_lem zero_member h = refl
is_zero_lem first_member h = cc

pub from_bits_lem : (u : SampleUuid) → from_bits (most u) (least u) ≡ u
unfolding from_bits most least
from_bits_lem zero_member = refl
from_bits_lem first_member = refl

pub most_range : (u : SampleUuid) → most u < 256 ^ 8
unfolding most
most_range zero_member = omega arith
most_range first_member = omega arith

pub least_range : (u : SampleUuid) → least u < 256 ^ 8
unfolding least
least_range zero_member = omega arith
least_range first_member = omega arith

abbrev pub sample : Protocol
sample = record {
  Uuid = SampleUuid;
  zero_uuid = zero_member;
  is_default = is_zero;
  msb = most;
  lsb = least;
  new_uuid_with = from_bits;
  is_default-zero = is_zero_lem;
  new_uuid_with-bits = from_bits_lem;
  msb_range = most_range;
  lsb_range = least_range;
  byte_size = 1;
  boolean_size = 1;
  int_size = 4;
  long_size = 8;
  uuid_size = 17;
  partition_id_offset = 12;
  response_backup_acks_offset = 12;
  boolean_size_lem = refl;
  int_size_lem = refl;
  long_size_lem = refl;
  uuid_size_lem = refl;
  Frame = SampleFrame;
  content = λ f. f.content;
  new_frame = λ b. record { content = b; flags = 0 };
  new_frame_with = λ b flags. record { content = b; flags = flags };
  unfragmented_message = 4;
  begin_data_structure_flag = 1;
  end_data_structure_flag = 2;
  begin_frame = record { content = []; flags = 1 };
  end_frame = record { content = []; flags = 2 };
  null_frame = record { content = []; flags = 3 };
  is_begin_frame = λ f. f.flags == 1;
  is_end_frame = λ f. f.flags == 2;
  is_null_frame = λ f. f.flags == 3;
  content-new_frame = λ b. refl;
  content-new_frame_with = λ b flags. refl;
  new_frame-begin = λ b. refl;
  new_frame-end = λ b. refl;
  new_frame-null = λ b. refl;
  begin_frame-begin = refl;
  begin_frame-end = refl;
  begin_frame-null = refl;
  end_frame-end = refl;
  end_frame-null = refl;
  null_frame-null = refl;
  null_frame-end = refl;
  null_frame-begin = refl;
  end_flag-end = refl;
  Message = SampleMessage;
  new_message = record { frames = []; message_type = 0; retryable = false; partition_id = 0 };
  frames = λ m. m.frames;
  message_type = λ m. m.message_type;
  retryable = λ m. m.retryable;
  set_retryable = λ b m. record m { retryable = b };
  add_frame = λ f m. record m { frames = m.frames ++ (f ∷ []) };
  set_message_type = λ t m. record m { message_type = t };
  set_partition_id = λ i m. record m { partition_id = i };
  stamp_type = λ t f. f;
  stamp_partition = λ i f. f;
  frames-new = refl;
  frames-set_retryable = λ b m. refl;
  frames-add_frame = λ f m. refl;
  frames-set_message_type = λ t m f fs h. h;
  frames-set_partition_id = λ i m f fs h. h;
  length-stamp_type = λ t f. refl;
  length-stamp_partition = λ i f. refl;
  slice-stamp_type = λ t f o k h. refl;
  slice-stamp_partition = λ i f o k h. refl;
  retryable-set_retryable = λ b m. refl;
  retryable-add_frame = λ f m. refl;
  retryable-set_message_type = λ t m. refl;
  retryable-set_partition_id = λ i m. refl;
  type-set_message_type = λ t m f fs h. refl;
  type-set_partition_id = λ i m. refl;
  type-add_frame = λ g m f fs h. refl;
}
