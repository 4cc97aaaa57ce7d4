-- ===== src/Codec/Responses.antt =====
-- The Decode…Response functions of internal/proto/codec, and the event handler of topics.
pub mod Replies
use hazelcast_commandline_cl.Prelude.{
  ℕ, ◌+◌, Bool, Option, some, none, List, ◌==◌, if◌then◌else◌, ◌>>=◌,
}
use hazelcast_commandline_cl.Wire.Bytes.{Bytes}
use hazelcast_commandline_cl.Wire.Protocol.{Protocol}
use hazelcast_commandline_cl.Wire.Fields.{decode_boolean, decode_long, decode_uuid}
use hazelcast_commandline_cl.Codec.Builtin.{next, decode_data, decode_nullable_for_data}
use hazelcast_commandline_cl.Codec.Builtin.Items.{
  decode_list_multi_frame_for_data, decode_entry_list_for_data_and_data,
}

module _ (p : Protocol) where
  open p use {
    Message, frames, content, message_type, Uuid, response_backup_acks_offset, byte_size,
    partition_id_offset, int_size, long_size,
  }

  -- `proto.ResponseBackupAcksOffset + proto.ByteSizeInBytes`
  abbrev pub response_offset : ℕ
  response_offset = response_backup_acks_offset + byte_size

  unfoldable pub decode_list_add_response : Message → Option Bool
  decode_list_add_response client_message = do
    (initial_frame, it) ← next p (frames client_message)
    decode_boolean (content initial_frame) response_offset

  unfoldable pub decode_list_contains_response : Message → Option Bool
  decode_list_contains_response client_message = do
    (initial_frame, it) ← next p (frames client_message)
    decode_boolean (content initial_frame) response_offset

  unfoldable pub decode_list_remove_response : Message → Option Bool
  decode_list_remove_response client_message = do
    (initial_frame, it) ← next p (frames client_message)
    decode_boolean (content initial_frame) response_offset

  unfoldable pub decode_multi_map_put_response : Message → Option Bool
  decode_multi_map_put_response client_message = do
    (initial_frame, it) ← next p (frames client_message)
    decode_boolean (content initial_frame) response_offset

  unfoldable pub decode_set_remove_response : Message → Option Bool
  decode_set_remove_response client_message = do
    (initial_frame, it) ← next p (frames client_message)
    decode_boolean (content initial_frame) response_offset

  unfoldable pub decode_topic_remove_message_listener_response : Message → Option Bool
  decode_topic_remove_message_listener_response client_message = do
    (initial_frame, it) ← next p (frames client_message)
    decode_boolean (content initial_frame) response_offset

  unfoldable pub decode_topic_add_message_listener_response : Message → Option Uuid
  decode_topic_add_message_listener_response client_message = do
    (initial_frame, it) ← next p (frames client_message)
    decode_uuid p (content initial_frame) response_offset

  unfoldable pub decode_map_key_set_response : Message → Option (List Bytes)
  decode_map_key_set_response client_message = do
    (initial_frame, it) ← next p (frames client_message)
    (values, it₁) ← decode_list_multi_frame_for_data p it
    some values

  unfoldable pub decode_map_values_response : Message → Option (List Bytes)
  decode_map_values_response client_message = do
    (initial_frame, it) ← next p (frames client_message)
    (values, it₁) ← decode_list_multi_frame_for_data p it
    some values

  unfoldable pub decode_multi_map_get_response : Message → Option (List Bytes)
  decode_multi_map_get_response client_message = do
    (initial_frame, it) ← next p (frames client_message)
    (values, it₁) ← decode_list_multi_frame_for_data p it
    some values

  unfoldable pub decode_multi_map_key_set_response : Message → Option (List Bytes)
  decode_multi_map_key_set_response client_message = do
    (initial_frame, it) ← next p (frames client_message)
    (values, it₁) ← decode_list_multi_frame_for_data p it
    some values

  unfoldable pub decode_multi_map_remove_response : Message → Option (List Bytes)
  decode_multi_map_remove_response client_message = do
    (initial_frame, it) ← next p (frames client_message)
    (values, it₁) ← decode_list_multi_frame_for_data p it
    some values

  unfoldable pub decode_multi_map_values_response : Message → Option (List Bytes)
  decode_multi_map_values_response client_message = do
    (initial_frame, it) ← next p (frames client_message)
    (values, it₁) ← decode_list_multi_frame_for_data p it
    some values

  unfoldable pub decode_set_get_all_response : Message → Option (List Bytes)
  decode_set_get_all_response client_message = do
    (initial_frame, it) ← next p (frames client_message)
    (values, it₁) ← decode_list_multi_frame_for_data p it
    some values

  unfoldable pub decode_list_remove_with_index_response : Message → Option (Option Bytes)
  decode_list_remove_with_index_response client_message = do
    (initial_frame, it) ← next p (frames client_message)
    (value, it₁) ← decode_nullable_for_data p it
    some value

  unfoldable pub decode_list_set_response : Message → Option (Option Bytes)
  decode_list_set_response client_message = do
    (initial_frame, it) ← next p (frames client_message)
    (value, it₁) ← decode_nullable_for_data p it
    some value

  unfoldable pub decode_map_get_response : Message → Option (Option Bytes)
  decode_map_get_response client_message = do
    (initial_frame, it) ← next p (frames client_message)
    (value, it₁) ← decode_nullable_for_data p it
    some value

  unfoldable pub decode_map_remove_response : Message → Option (Option Bytes)
  decode_map_remove_response client_message = do
    (initial_frame, it) ← next p (frames client_message)
    (value, it₁) ← decode_nullable_for_data p it
    some value

  unfoldable pub decode_map_set_with_max_idle_response : Message → Option (Option Bytes)
  decode_map_set_with_max_idle_response client_message = do
    (initial_frame, it) ← next p (frames client_message)
    (value, it₁) ← decode_nullable_for_data p it
    some value

  unfoldable pub decode_queue_poll_response : Message → Option (Option Bytes)
  decode_queue_poll_response client_message = do
    (initial_frame, it) ← next p (frames client_message)
    (value, it₁) ← decode_nullable_for_data p it
    some value

  unfoldable pub decode_map_entry_set_response : Message → Option (List (Bytes × Bytes))
  decode_map_entry_set_response client_message = do
    (initial_frame, it) ← next p (frames client_message)
    (entries, it₁) ← decode_entry_list_for_data_and_data p it
    some entries

  unfoldable pub decode_multi_map_entry_set_response : Message → Option (List (Bytes × Bytes))
  decode_multi_map_entry_set_response client_message = do
    (initial_frame, it) ← next p (frames client_message)
    (entries, it₁) ← decode_entry_list_for_data_and_data p it
    some entries

  -- What the handler of a topic event is called with; `some none` if the message is no such event.
  unfoldable pub handle_topic_add_message_listener : Message → Option (Option (Bytes × ℕ × Uuid))
  handle_topic_add_message_listener client_message = do
    let publish_time_offset = partition_id_offset + int_size
    let uuid_offset = publish_time_offset + long_size
    if message_type client_message == 0x040202
        then (do
          (initial_frame, it) ← next p (frames client_message)
          publish_time ← decode_long (content initial_frame) publish_time_offset
          uuid ← decode_uuid p (content initial_frame) uuid_offset
          (item, it₁) ← decode_data p it
          some (some (item, publish_time, uuid)))
        else some none
