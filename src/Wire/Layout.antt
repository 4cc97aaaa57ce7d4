-- ===== src/Wire/Layout.antt =====
-- What the initial frame of a message promises: its fields stand one behind the other, with no gap,
-- from the end of the header to the end of the frame.
pub mod Writes
use hazelcast_commandline_cl.Prelude.{
  ℕ, ◌+◌, ◌<◌, ◌^◌, ◌≡◌, Bool, Option, some, List, [], ◌∷◌, ◌>>=◌, length,
}
use hazelcast_commandline_cl.Wire.Bytes.{Bytes}
use hazelcast_commandline_cl.Wire.Protocol.{Protocol}
use hazelcast_commandline_cl.Wire.Fields.{
  encode_long, decode_long, encode_int, decode_int, encode_boolean, decode_boolean, encode_uuid,
  decode_uuid,
}

module _ (p : Protocol) where
  open p use {Uuid, zero_uuid, is_default, boolean_size, int_size, long_size, uuid_size}

  pub data Field : Type 0 where
    bool_field : Bool → Field
    int_field : ℕ → Field
    long_field : ℕ → Field
    uuid_field : Uuid → Field

  abbrev pub field_size : Field → ℕ
  field_size (bool_field b) = boolean_size
  field_size (int_field v) = int_size
  field_size (long_field v) = long_size
  field_size (uuid_field u) = uuid_size

  -- The value fits its field.
  abbrev pub FieldFits : Field → Type 0
  FieldFits (int_field v) = v < 256 ^ 4
  FieldFits (long_field v) = v < 256 ^ 8
  FieldFits _ = Unit {0}

  -- The decoder of the field's type finds its value at `off`.
  abbrev pub ReadsField : Bytes → ℕ → Field → Type 0
  ReadsField buf off (bool_field b) = decode_boolean buf off ≡ some b
  ReadsField buf off (int_field v) = decode_int buf off ≡ some v
  ReadsField buf off (long_field v) = decode_long buf off ≡ some v
  ReadsField buf off (uuid_field u) = decode_uuid p buf off ≡ some u

  -- From `off` on, the frame holds exactly these fields.
  abbrev pub HoldsFields : Bytes → ℕ → List Field → Type 0
  HoldsFields buf off [] = off ≡ length buf
  HoldsFields buf off (f ∷ fs) = ReadsField buf off f × HoldsFields buf (off + field_size f) fs

  abbrev pub encode_field : Bytes → ℕ → Field → Option Bytes
  encode_field buf off (bool_field b) = encode_boolean buf off b
  encode_field buf off (int_field v) = encode_int buf off v
  encode_field buf off (long_field v) = encode_long buf off v
  encode_field buf off (uuid_field u) = encode_uuid p buf off u

  abbrev pub fields_size : List Field → ℕ
  fields_size [] = 0
  fields_size (f ∷ fs) = field_size f + fields_size fs

  -- The fields written in their order, each where the one before it ends.
  abbrev pub write_fields : Bytes → ℕ → List Field → Option Bytes
  write_fields buf off [] = some buf
  write_fields buf off (f ∷ fs) =
      encode_field buf off f >>= λ out. write_fields out (off + field_size f) fs
