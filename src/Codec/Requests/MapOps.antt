-- ===== src/Codec/Requests/MapOps.antt =====
-- The map_*_codec.go files, and mc_get_map_config_codec.go.
use hazelcast_commandline_cl.Prelude.{◌+◌, Option, some, ◌>>=◌, true, false, List, ℕ, Bool}
use hazelcast_commandline_cl.Wire.Bytes.{Bytes, make_bytes}
use hazelcast_commandline_cl.Wire.Protocol.{Protocol}
use hazelcast_commandline_cl.Wire.Fields.{encode_boolean, encode_long}
use hazelcast_commandline_cl.Codec.Builtin.{
  encode_data, encode_list_multi_frame_for_data, encode_string,
}
use hazelcast_commandline_cl.Codec.Requests.{first_field_offset, request}

module _ (p : Protocol) where
  open p use {Message, boolean_size, long_size}

  unfoldable pub encode_map_entry_set_request : Bytes → Option Message
  encode_map_entry_set_request name =
      some (encode_string p (request p true (make_bytes (first_field_offset p)) 75008) name)

  unfoldable pub encode_map_get_request : Bytes → Bytes → ℕ → Option Message
  encode_map_get_request name key thread_id = do
    let thread_id_offset = first_field_offset p
    let initial_frame_size = thread_id_offset + long_size
    buf₁ ← encode_long (make_bytes initial_frame_size) thread_id_offset thread_id
    some (encode_data p (encode_string p (request p true buf₁ 0x010200) name) key)

  unfoldable pub encode_map_key_set_request : Bytes → Option Message
  encode_map_key_set_request name =
      some (encode_string p (request p true (make_bytes (first_field_offset p)) 0x012200) name)

  unfoldable pub encode_map_load_all_request : Bytes → Bool → Option Message
  encode_map_load_all_request name replace_existing_values = do
    let replace_existing_values_offset = first_field_offset p
    let initial_frame_size = replace_existing_values_offset + boolean_size
    buf₁ ←
        encode_boolean (make_bytes initial_frame_size) replace_existing_values_offset
          replace_existing_values
    some (encode_string p (request p false buf₁ 0x012000) name)

  unfoldable pub encode_map_load_given_keys_request : Bytes → List Bytes → Bool → Option Message
  encode_map_load_given_keys_request name keys replace_existing_values = do
    let replace_existing_values_offset = first_field_offset p
    let initial_frame_size = replace_existing_values_offset + boolean_size
    buf₁ ←
        encode_boolean (make_bytes initial_frame_size) replace_existing_values_offset
          replace_existing_values
    some (
        encode_list_multi_frame_for_data p (encode_string p (request p false buf₁ 0x012100) name)
          keys)

  unfoldable pub encode_map_remove_request : Bytes → Bytes → ℕ → Option Message
  encode_map_remove_request name key thread_id = do
    let thread_id_offset = first_field_offset p
    let initial_frame_size = thread_id_offset + long_size
    buf₁ ← encode_long (make_bytes initial_frame_size) thread_id_offset thread_id
    some (encode_data p (encode_string p (request p false buf₁ 66304) name) key)

  unfoldable pub encode_map_set_request : Bytes → Bytes → Bytes → ℕ → ℕ → Option Message
  encode_map_set_request name key value thread_id ttl = do
    let thread_id_offset = first_field_offset p
    let ttl_offset = thread_id_offset + long_size
    let initial_frame_size = ttl_offset + long_size
    buf₁ ← encode_long (make_bytes initial_frame_size) thread_id_offset thread_id
    buf₂ ← encode_long buf₁ ttl_offset ttl
    some (
        encode_data p (encode_data p (encode_string p (request p false buf₂ 69376) name) key) value)

  unfoldable pub encode_map_set_with_max_idle_request :
      Bytes → Bytes → Bytes → ℕ → ℕ → ℕ → Option Message
  encode_map_set_with_max_idle_request name key value thread_id ttl max_idle = do
    let thread_id_offset = first_field_offset p
    let ttl_offset = thread_id_offset + long_size
    let max_idle_offset = ttl_offset + long_size
    let initial_frame_size = max_idle_offset + long_size
    buf₁ ← encode_long (make_bytes initial_frame_size) thread_id_offset thread_id
    buf₂ ← encode_long buf₁ ttl_offset ttl
    buf₃ ← encode_long buf₂ max_idle_offset max_idle
    some (
        encode_data p (encode_data p (encode_string p (request p false buf₃ 83712) name) key) value)

  unfoldable pub encode_map_values_request : Bytes → Option Message
  encode_map_values_request name =
      some (encode_string p (request p true (make_bytes (first_field_offset p)) 0x012400) name)

  unfoldable pub encode_mc_get_map_config_request : Bytes → Option Message
  encode_mc_get_map_config_request map_name =
      some (encode_string p (request p true (make_bytes (first_field_offset p)) 0x200300) map_name)
