-- ===== src/Wire/Fields.antt =====
-- The fixed-size fields of a frame: EncodeInt, EncodeLong, EncodeBoolean, EncodeUUID and their
-- decoders of internal/proto/codec/builtin.go.
-- An int32 or int64 is its bit pattern, a number below 2 ^ 32 or 2 ^ 64, so that the conversions
-- between signed and unsigned are the identity.
use hazelcast_commandline_cl.Prelude.{
  ℕ, ◌+◌, Bool, true, false, Option, some, ◌==◌, if◌then◌else◌, ◌>>=◌,
}
use hazelcast_commandline_cl.Wire.Bytes.{Bytes, put_uint, uint}
use hazelcast_commandline_cl.Wire.Protocol.{Protocol}

-- `binary.LittleEndian.PutUint64(buffer[offset:], uint64(value))`
unfoldable pub encode_long : Bytes → ℕ → ℕ → Option Bytes
encode_long = put_uint 8

unfoldable pub decode_long : Bytes → ℕ → Option ℕ
decode_long = uint 8

unfoldable pub encode_int : Bytes → ℕ → ℕ → Option Bytes
encode_int = put_uint 4

unfoldable pub decode_int : Bytes → ℕ → Option ℕ
decode_int = uint 4

-- `buffer[offset] = 1` is the write of one byte.
unfoldable pub encode_boolean : Bytes → ℕ → Bool → Option Bytes
encode_boolean buf off true = put_uint 1 buf off 1
encode_boolean buf off false = put_uint 1 buf off 0

unfoldable pub decode_boolean : Bytes → ℕ → Option Bool
decode_boolean buf off = do b ← uint 1 buf off; some (b == 1)

module _ (p : Protocol) where
  open p use {Uuid, zero_uuid, is_default, msb, lsb, new_uuid_with, boolean_size, long_size}

  unfoldable pub encode_uuid : Bytes → ℕ → Uuid → Option Bytes
  encode_uuid buf off uuid = do
    let is_null_encode = is_default uuid
    buf₁ ← encode_boolean buf off is_null_encode
    if is_null_encode then some buf₁ else do
      let buffer_offset = off + boolean_size
      buf₂ ← encode_long buf₁ buffer_offset (msb uuid)
      encode_long buf₂ (buffer_offset + long_size) (lsb uuid)

  unfoldable pub decode_uuid : Bytes → ℕ → Option Uuid
  decode_uuid buf off = do
    is_null ← decode_boolean buf off
    if is_null then some zero_uuid else do
      let most_significant_offset = off + boolean_size
      let least_significant_offset = most_significant_offset + long_size
      most_significant ← decode_long buf most_significant_offset
      least_significant ← decode_long buf least_significant_offset
      some (new_uuid_with most_significant least_significant)
