-- ===== src/Codec/Requests/OtherOps.antt =====
-- The codecs of queues, sets and topics.
use hazelcast_commandline_cl.Prelude.{◌+◌, Option, some, ◌>>=◌, true, false, List, ℕ, Bool}
use hazelcast_commandline_cl.Wire.Bytes.{Bytes, make_bytes}
use hazelcast_commandline_cl.Wire.Protocol.{Protocol}
use hazelcast_commandline_cl.Wire.Fields.{encode_boolean, encode_long, encode_uuid}
use hazelcast_commandline_cl.Codec.Builtin.{
  encode_data, encode_list_multi_frame_for_data, encode_string,
}
use hazelcast_commandline_cl.Codec.Requests.{first_field_offset, request}

module _ (p : Protocol) where
  open p use {Message, boolean_size, long_size, uuid_size, Uuid}

  unfoldable pub encode_queue_poll_request : Bytes → ℕ → Option Message
  encode_queue_poll_request name timeout_millis = do
    let timeout_millis_offset = first_field_offset p
    let initial_frame_size = timeout_millis_offset + long_size
    buf₁ ← encode_long (make_bytes initial_frame_size) timeout_millis_offset timeout_millis
    some (encode_string p (request p false buf₁ 0x030500) name)

  unfoldable pub encode_set_get_all_request : Bytes → Option Message
  encode_set_get_all_request name =
      some (encode_string p (request p false (make_bytes (first_field_offset p)) 0x060a00) name)

  unfoldable pub encode_set_remove_request : Bytes → Bytes → Option Message
  encode_set_remove_request name value = some (
      encode_data p
        (encode_string p (request p false (make_bytes (first_field_offset p)) 0x060500) name) value)

  unfoldable pub encode_topic_add_message_listener_request : Bytes → Bool → Option Message
  encode_topic_add_message_listener_request name local_only = do
    let local_only_offset = first_field_offset p
    let initial_frame_size = local_only_offset + boolean_size
    buf₁ ← encode_boolean (make_bytes initial_frame_size) local_only_offset local_only
    some (encode_string p (request p false buf₁ 0x040200) name)

  unfoldable pub encode_topic_publish_all_request : Bytes → List Bytes → Option Message
  encode_topic_publish_all_request name messages = some (
      encode_list_multi_frame_for_data p
        (encode_string p (request p false (make_bytes (first_field_offset p)) 0x040400) name)
        messages)

  unfoldable pub encode_topic_remove_message_listener_request : Bytes → Uuid → Option Message
  encode_topic_remove_message_listener_request name registration_id = do
    let registration_id_offset = first_field_offset p
    let initial_frame_size = registration_id_offset + uuid_size
    buf₁ ← encode_uuid p (make_bytes initial_frame_size) registration_id_offset registration_id
    some (encode_string p (request p true buf₁ 0x040300) name)
