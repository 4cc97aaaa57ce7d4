-- ===== src/Codec/Requests/MultiMapOps.antt =====
-- The multi_map_*_codec.go files.
use hazelcast_commandline_cl.Prelude.{◌+◌, Option, some, ◌>>=◌, true, false, ℕ}
use hazelcast_commandline_cl.Wire.Bytes.{Bytes, make_bytes}
use hazelcast_commandline_cl.Wire.Protocol.{Protocol}
use hazelcast_commandline_cl.Wire.Fields.{encode_long}
use hazelcast_commandline_cl.Codec.Builtin.{encode_data, encode_string}
use hazelcast_commandline_cl.Codec.Requests.{first_field_offset, request}

module _ (p : Protocol) where
  open p use {Message, long_size}

  unfoldable pub encode_multi_map_entry_set_request : Bytes → Option Message
  encode_multi_map_entry_set_request name =
      some (encode_string p (request p true (make_bytes (first_field_offset p)) 0x020600) name)

  unfoldable pub encode_multi_map_get_request : Bytes → Bytes → ℕ → Option Message
  encode_multi_map_get_request name key thread_id = do
    let thread_id_offset = first_field_offset p
    let initial_frame_size = thread_id_offset + long_size
    buf₁ ← encode_long (make_bytes initial_frame_size) thread_id_offset thread_id
    some (encode_data p (encode_string p (request p true buf₁ 0x020200) name) key)

  unfoldable pub encode_multi_map_key_set_request : Bytes → Option Message
  encode_multi_map_key_set_request name =
      some (encode_string p (request p true (make_bytes (first_field_offset p)) 0x020400) name)

  unfoldable pub encode_multi_map_put_request : Bytes → Bytes → Bytes → ℕ → Option Message
  encode_multi_map_put_request name key value thread_id = do
    let thread_id_offset = first_field_offset p
    let initial_frame_size = thread_id_offset + long_size
    buf₁ ← encode_long (make_bytes initial_frame_size) thread_id_offset thread_id
    some (
        encode_data p (encode_data p (encode_string p (request p false buf₁ 0x020100) name) key)
          value)

  unfoldable pub encode_multi_map_remove_request : Bytes → Bytes → ℕ → Option Message
  encode_multi_map_remove_request name key thread_id = do
    let thread_id_offset = first_field_offset p
    let initial_frame_size = thread_id_offset + long_size
    buf₁ ← encode_long (make_bytes initial_frame_size) thread_id_offset thread_id
    some (encode_data p (encode_string p (request p false buf₁ 0x020300) name) key)

  unfoldable pub encode_multi_map_unlock_request : Bytes → Bytes → ℕ → ℕ → Option Message
  encode_multi_map_unlock_request name key thread_id reference_id = do
    let thread_id_offset = first_field_offset p
    let reference_id_offset = thread_id_offset + long_size
    let initial_frame_size = reference_id_offset + long_size
    buf₁ ← encode_long (make_bytes initial_frame_size) thread_id_offset thread_id
    buf₂ ← encode_long buf₁ reference_id_offset reference_id
    some (encode_data p (encode_string p (request p true buf₂ 0x021300) name) key)

  unfoldable pub encode_multi_map_values_request : Bytes → Option Message
  encode_multi_map_values_request name =
      some (encode_string p (request p true (make_bytes (first_field_offset p)) 0x020500) name)
