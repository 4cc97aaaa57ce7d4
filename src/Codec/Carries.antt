-- ===== src/Codec/Carries.antt =====
-- What an encoder appends to a message, stated through the decoder of the same data: the frames
-- that it adds decode to the value, whatever frames follow, and those frames are left.
pub mod Lists
use hazelcast_commandline_cl.Prelude.{
  ℕ, zero, suc, ◌+◌, ◌<◌, ◌≡◌, refl, sym, ap, ◌∙◌, Bool, true, false, Option, some, none, List, [],
  ◌∷◌, ◌++◌, map, append-nil, append_assoc, if◌then◌else◌, length, length-append, arith, Bool-cases,
  inl, inr,
}
use hazelcast_commandline_cl.Wire.Bytes.{Bytes}
use hazelcast_commandline_cl.Wire.Protocol.{Protocol}
use hazelcast_commandline_cl.Codec.Builtin.{
  Decoder, next_frame_is_null_frame, decode_string, decode_data, decode_nullable_for_string,
  decode_nullable_for_data, encode_string, encode_data, encode_nullable_for_string,
  encode_nullable_for_data, is_blank, encode_each, encode_list_multi_frame_for_string,
  encode_list_multi_frame_for_data, new_begin_frame, new_end_frame,
  next_frame_is_data_structure_end_frame,
}
use hazelcast_commandline_cl.Codec.Builtin.Items.{
  decode_items, decode_list_of, decode_list_multi_frame_for_string,
  decode_list_multi_frame_for_data,
}

module _ (p : Protocol) where
  open p use {
    Frame, Message, frames, add_frame, new_frame, null_frame, is_null_frame, is_end_frame,
    frames-add_frame, content-new_frame, new_frame-null, new_frame-end, null_frame-null,
    end_flag-end,
  }

  pub record Carries {A : Type 0} (m m' : Message) (decode : Decoder p A) (a : A) : Type 0 where
    pub added : List Frame
    pub appended : frames m' ≡ frames m ++ added
    pub decodes : (rest : List Frame) → decode (added ++ rest) ≡ some (a, rest)

  Carries-add_frame :
      {A : Type 0} (m : Message) (f : Frame) (decode : Decoder p A) (a : A)
      → ((rest : List Frame) → decode (f ∷ rest) ≡ some (a, rest))
      → Carries m (add_frame f m) decode a
  Carries-add_frame m f decode a h = record {
    added = f ∷ [];
    appended = frames-add_frame f m;
    decodes = h;
  }

  pub decode_string-new_frame :
      (v : Bytes) (rest : List Frame) → decode_string p (new_frame v ∷ rest) ≡ some (v, rest)
  unfolding decode_string
  decode_string-new_frame v rest = rw content-new_frame

  pub encode_string-Carries :
      (m : Message) (v : Bytes) → Carries m (encode_string p m v) (decode_string p) v
  unfolding encode_string
  encode_string-Carries m v =
      Carries-add_frame m (new_frame v) (decode_string p) v (decode_string-new_frame v)

  pub encode_data-Carries :
      (m : Message) (v : Bytes) → Carries m (encode_data p m v) (decode_data p) v
  unfolding encode_data decode_data
  encode_data-Carries m v =
      Carries-add_frame m (new_frame v) (decode_data p) v (λ rest. rw content-new_frame)

  -- A blank string is sent as the null frame, and comes back empty.
  abbrev pub seen_string : Bytes → Bytes
  seen_string v = if is_blank v then [] else v

  pub encode_nullable_for_string-Carries :
      (m : Message) (v : Bytes)
      → Carries m (encode_nullable_for_string p m v) (decode_nullable_for_string p) (seen_string v)
  unfolding encode_nullable_for_string decode_nullable_for_string
  encode_nullable_for_string-Carries m v = elim (Bool-cases (is_blank v)) [
    | inl blank ↦ rw blank (
        Carries-add_frame m null_frame (decode_nullable_for_string p) []
          (λ rest. rw null_frame-null))
    | inr full ↦ rw full (
        Carries-add_frame m (new_frame v) (decode_nullable_for_string p) v
          (λ rest. rw new_frame-null (rw content-new_frame)))
  ]

  pub encode_nullable_for_data-Carries :
      (m : Message) (v : Option Bytes)
      → Carries m (encode_nullable_for_data p m v) (decode_nullable_for_data p) v
  unfolding encode_nullable_for_data decode_nullable_for_data
  encode_nullable_for_data-Carries m none =
      Carries-add_frame m null_frame (decode_nullable_for_data p) none (λ rest. rw null_frame-null)
  encode_nullable_for_data-Carries m (some v) =
      Carries-add_frame m (new_frame v) (decode_nullable_for_data p) (some v)
        (λ rest. rw new_frame-null (rw content-new_frame))
