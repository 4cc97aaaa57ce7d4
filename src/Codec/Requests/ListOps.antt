-- ===== src/Codec/Requests/ListOps.antt =====
-- The list_*_codec.go files.
use hazelcast_commandline_cl.Prelude.{◌+◌, Option, some, ◌>>=◌, true, false, ℕ}
use hazelcast_commandline_cl.Wire.Bytes.{Bytes, make_bytes}
use hazelcast_commandline_cl.Wire.Protocol.{Protocol}
use hazelcast_commandline_cl.Wire.Fields.{encode_int}
use hazelcast_commandline_cl.Codec.Builtin.{encode_data, encode_string}
use hazelcast_commandline_cl.Codec.Requests.{first_field_offset, request}

module _ (p : Protocol) where
  open p use {Message, int_size}

  unfoldable pub encode_list_add_request : Bytes → Bytes → Option Message
  encode_list_add_request name value = some (
      encode_data p
        (encode_string p (request p false (make_bytes (first_field_offset p)) 0x050400) name) value)

  unfoldable pub encode_list_add_with_index_request : Bytes → ℕ → Bytes → Option Message
  encode_list_add_with_index_request name index value = do
    let index_offset = first_field_offset p
    let initial_frame_size = index_offset + int_size
    buf₁ ← encode_int (make_bytes initial_frame_size) index_offset index
    some (encode_data p (encode_string p (request p false buf₁ 0x051100) name) value)

  unfoldable pub encode_list_contains_request : Bytes → Bytes → Option Message
  encode_list_contains_request name value = some (
      encode_data p
        (encode_string p (request p true (make_bytes (first_field_offset p)) 0x050200) name) value)

  unfoldable pub encode_list_remove_request : Bytes → Bytes → Option Message
  encode_list_remove_request name value = some (
      encode_data p
        (encode_string p (request p false (make_bytes (first_field_offset p)) 0x050500) name) value)

  unfoldable pub encode_list_remove_with_index_request : Bytes → ℕ → Option Message
  encode_list_remove_with_index_request name index = do
    let index_offset = first_field_offset p
    let initial_frame_size = index_offset + int_size
    buf₁ ← encode_int (make_bytes initial_frame_size) index_offset index
    some (encode_string p (request p false buf₁ 0x051200) name)

  unfoldable pub encode_list_set_request : Bytes → ℕ → Bytes → Option Message
  encode_list_set_request name index value = do
    let index_offset = first_field_offset p
    let initial_frame_size = index_offset + int_size
    buf₁ ← encode_int (make_bytes initial_frame_size) index_offset index
    some (encode_data p (encode_string p (request p false buf₁ 0x051000) name) value)
