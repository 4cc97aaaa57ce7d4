-- ===== src/Codec/Calls.antt =====
-- Every request of the client protocol that the program sends, and what the message of each has to
-- hold: its type, whether it may be retried, its fixed-size fields in their order, and the parts
-- behind the initial frame.
pub mod Parts
pub mod Describes
use hazelcast_commandline_cl.Prelude.{ℕ, Bool, true, false, Option, List, [], ◌∷◌}
use hazelcast_commandline_cl.Wire.Bytes.{Bytes}
use hazelcast_commandline_cl.Wire.Protocol.{Protocol}
use hazelcast_commandline_cl.Wire.Layout.{Field, bool_field, int_field, long_field, uuid_field}
use hazelcast_commandline_cl.Codec.Calls.Parts.{
  Part, string_part, data_part, nullable_part, strings_part, datas_part, bytes_part,
}
use hazelcast_commandline_cl.Codec.Requests.Jet.{
  encode_jet_export_snapshot_request, encode_jet_get_job_and_sql_summary_list_request,
  encode_jet_resume_job_request, encode_jet_terminate_job_request,
  encode_jet_upload_job_meta_data_request, encode_jet_upload_job_multipart_request,
}
use hazelcast_commandline_cl.Codec.Requests.ListOps.{
  encode_list_add_request, encode_list_add_with_index_request, encode_list_contains_request,
  encode_list_remove_request, encode_list_remove_with_index_request, encode_list_set_request,
}
use hazelcast_commandline_cl.Codec.Requests.MapOps.{
  encode_map_entry_set_request, encode_map_get_request, encode_map_key_set_request,
  encode_map_load_all_request, encode_map_load_given_keys_request, encode_map_remove_request,
  encode_map_set_request, encode_map_set_with_max_idle_request, encode_map_values_request,
  encode_mc_get_map_config_request,
}
use hazelcast_commandline_cl.Codec.Requests.MultiMapOps.{
  encode_multi_map_entry_set_request, encode_multi_map_get_request,
  encode_multi_map_key_set_request, encode_multi_map_put_request, encode_multi_map_remove_request,
  encode_multi_map_unlock_request, encode_multi_map_values_request,
}
use hazelcast_commandline_cl.Codec.Requests.OtherOps.{
  encode_queue_poll_request, encode_set_get_all_request, encode_set_remove_request,
  encode_topic_add_message_listener_request, encode_topic_publish_all_request,
  encode_topic_remove_message_listener_request,
}

module _ (p : Protocol) where
  open p use {Message, Uuid}

  pub data Call : Type 0 where
    jet_export_snapshot : ℕ → Bytes → Bool → Call
    jet_get_job_and_sql_summary_list : Call
    jet_resume_job : ℕ → Call
    jet_terminate_job : ℕ → ℕ → Uuid → Call
    jet_upload_job_meta_data :
        Uuid → Bool → Bytes → Bytes → Bytes → Bytes → Bytes → List Bytes → Call
    jet_upload_job_multipart : Uuid → ℕ → ℕ → Bytes → ℕ → Bytes → Call
    list_add : Bytes → Bytes → Call
    list_add_with_index : Bytes → ℕ → Bytes → Call
    list_contains : Bytes → Bytes → Call
    list_remove : Bytes → Bytes → Call
    list_remove_with_index : Bytes → ℕ → Call
    list_set : Bytes → ℕ → Bytes → Call
    map_entry_set : Bytes → Call
    map_get : Bytes → Bytes → ℕ → Call
    map_key_set : Bytes → Call
    map_load_all : Bytes → Bool → Call
    map_load_given_keys : Bytes → List Bytes → Bool → Call
    map_remove : Bytes → Bytes → ℕ → Call
    map_set : Bytes → Bytes → Bytes → ℕ → ℕ → Call
    map_set_with_max_idle : Bytes → Bytes → Bytes → ℕ → ℕ → ℕ → Call
    map_values : Bytes → Call
    mc_get_map_config : Bytes → Call
    multi_map_entry_set : Bytes → Call
    multi_map_get : Bytes → Bytes → ℕ → Call
    multi_map_key_set : Bytes → Call
    multi_map_put : Bytes → Bytes → Bytes → ℕ → Call
    multi_map_remove : Bytes → Bytes → ℕ → Call
    multi_map_unlock : Bytes → Bytes → ℕ → ℕ → Call
    multi_map_values : Bytes → Call
    queue_poll : Bytes → ℕ → Call
    set_get_all : Bytes → Call
    set_remove : Bytes → Bytes → Call
    topic_add_message_listener : Bytes → Bool → Call
    topic_publish_all : Bytes → List Bytes → Call
    topic_remove_message_listener : Bytes → Uuid → Call

  unfoldable pub encode : Call → Option Message
  unfolding encode_jet_export_snapshot_request encode_jet_get_job_and_sql_summary_list_request
      encode_jet_resume_job_request encode_jet_terminate_job_request
      encode_jet_upload_job_meta_data_request encode_jet_upload_job_multipart_request
      encode_list_add_request encode_list_add_with_index_request encode_list_contains_request
      encode_list_remove_request encode_list_remove_with_index_request encode_list_set_request
      encode_map_entry_set_request encode_map_get_request encode_map_key_set_request
      encode_map_load_all_request encode_map_load_given_keys_request encode_map_remove_request
      encode_map_set_request encode_map_set_with_max_idle_request encode_map_values_request
      encode_mc_get_map_config_request encode_multi_map_entry_set_request
      encode_multi_map_get_request encode_multi_map_key_set_request encode_multi_map_put_request
      encode_multi_map_remove_request encode_multi_map_unlock_request
      encode_multi_map_values_request encode_queue_poll_request encode_set_get_all_request
      encode_set_remove_request encode_topic_add_message_listener_request
      encode_topic_publish_all_request encode_topic_remove_message_listener_request
  encode (jet_export_snapshot job_id name cancel_job) =
      encode_jet_export_snapshot_request p job_id name cancel_job
  encode jet_get_job_and_sql_summary_list = encode_jet_get_job_and_sql_summary_list_request p
  encode (jet_resume_job job_id) = encode_jet_resume_job_request p job_id
  encode (jet_terminate_job job_id terminate_mode light_job_coordinator) =
      encode_jet_terminate_job_request p job_id terminate_mode light_job_coordinator
  encode
        (jet_upload_job_meta_data session_id jar_on_member file_name sha256_hex snapshot_name
          job_name main_class job_parameters) =
      encode_jet_upload_job_meta_data_request p session_id jar_on_member file_name sha256_hex
        snapshot_name job_name main_class job_parameters
  encode
        (jet_upload_job_multipart session_id current_part_number total_part_number part_data
          part_size sha256_hex) =
      encode_jet_upload_job_multipart_request p session_id current_part_number total_part_number
        part_data part_size sha256_hex
  encode (list_add name value) = encode_list_add_request p name value
  encode (list_add_with_index name index value) =
      encode_list_add_with_index_request p name index value
  encode (list_contains name value) = encode_list_contains_request p name value
  encode (list_remove name value) = encode_list_remove_request p name value
  encode (list_remove_with_index name index) = encode_list_remove_with_index_request p name index
  encode (list_set name index value) = encode_list_set_request p name index value
  encode (map_entry_set name) = encode_map_entry_set_request p name
  encode (map_get name key thread_id) = encode_map_get_request p name key thread_id
  encode (map_key_set name) = encode_map_key_set_request p name
  encode (map_load_all name replace_existing_values) =
      encode_map_load_all_request p name replace_existing_values
  encode (map_load_given_keys name keys replace_existing_values) =
      encode_map_load_given_keys_request p name keys replace_existing_values
  encode (map_remove name key thread_id) = encode_map_remove_request p name key thread_id
  encode (map_set name key value thread_id ttl) =
      encode_map_set_request p name key value thread_id ttl
  encode (map_set_with_max_idle name key value thread_id ttl max_idle) =
      encode_map_set_with_max_idle_request p name key value thread_id ttl max_idle
  encode (map_values name) = encode_map_values_request p name
  encode (mc_get_map_config map_name) = encode_mc_get_map_config_request p map_name
  encode (multi_map_entry_set name) = encode_multi_map_entry_set_request p name
  encode (multi_map_get name key thread_id) = encode_multi_map_get_request p name key thread_id
  encode (multi_map_key_set name) = encode_multi_map_key_set_request p name
  encode (multi_map_put name key value thread_id) =
      encode_multi_map_put_request p name key value thread_id
  encode (multi_map_remove name key thread_id) =
      encode_multi_map_remove_request p name key thread_id
  encode (multi_map_unlock name key thread_id reference_id) =
      encode_multi_map_unlock_request p name key thread_id reference_id
  encode (multi_map_values name) = encode_multi_map_values_request p name
  encode (queue_poll name timeout_millis) = encode_queue_poll_request p name timeout_millis
  encode (set_get_all name) = encode_set_get_all_request p name
  encode (set_remove name value) = encode_set_remove_request p name value
  encode (topic_add_message_listener name local_only) =
      encode_topic_add_message_listener_request p name local_only
  encode (topic_publish_all name messages) = encode_topic_publish_all_request p name messages
  encode (topic_remove_message_listener name registration_id) =
      encode_topic_remove_message_listener_request p name registration_id

  abbrev pub call_type : Call → ℕ
  call_type (jet_export_snapshot _ _ _) = 0xfe0a00
  call_type jet_get_job_and_sql_summary_list = 0xfe0f00
  call_type (jet_resume_job _) = 0xfe0900
  call_type (jet_terminate_job _ _ _) = 0xfe0200
  call_type (jet_upload_job_meta_data _ _ _ _ _ _ _ _) = 0xfe1100
  call_type (jet_upload_job_multipart _ _ _ _ _ _) = 0xfe1200
  call_type (list_add _ _) = 0x050400
  call_type (list_add_with_index _ _ _) = 0x051100
  call_type (list_contains _ _) = 0x050200
  call_type (list_remove _ _) = 0x050500
  call_type (list_remove_with_index _ _) = 0x051200
  call_type (list_set _ _ _) = 0x051000
  call_type (map_entry_set _) = 75008
  call_type (map_get _ _ _) = 0x010200
  call_type (map_key_set _) = 0x012200
  call_type (map_load_all _ _) = 0x012000
  call_type (map_load_given_keys _ _ _) = 0x012100
  call_type (map_remove _ _ _) = 66304
  call_type (map_set _ _ _ _ _) = 69376
  call_type (map_set_with_max_idle _ _ _ _ _ _) = 83712
  call_type (map_values _) = 0x012400
  call_type (mc_get_map_config _) = 0x200300
  call_type (multi_map_entry_set _) = 0x020600
  call_type (multi_map_get _ _ _) = 0x020200
  call_type (multi_map_key_set _) = 0x020400
  call_type (multi_map_put _ _ _ _) = 0x020100
  call_type (multi_map_remove _ _ _) = 0x020300
  call_type (multi_map_unlock _ _ _ _) = 0x021300
  call_type (multi_map_values _) = 0x020500
  call_type (queue_poll _ _) = 0x030500
  call_type (set_get_all _) = 0x060a00
  call_type (set_remove _ _) = 0x060500
  call_type (topic_add_message_listener _ _) = 0x040200
  call_type (topic_publish_all _ _) = 0x040400
  call_type (topic_remove_message_listener _ _) = 0x040300

  abbrev pub call_retryable : Call → Bool
  call_retryable (jet_export_snapshot _ _ _) = false
  call_retryable jet_get_job_and_sql_summary_list = true
  call_retryable (jet_resume_job _) = false
  call_retryable (jet_terminate_job _ _ _) = false
  call_retryable (jet_upload_job_meta_data _ _ _ _ _ _ _ _) = true
  call_retryable (jet_upload_job_multipart _ _ _ _ _ _) = true
  call_retryable (list_add _ _) = false
  call_retryable (list_add_with_index _ _ _) = false
  call_retryable (list_contains _ _) = true
  call_retryable (list_remove _ _) = false
  call_retryable (list_remove_with_index _ _) = false
  call_retryable (list_set _ _ _) = false
  call_retryable (map_entry_set _) = true
  call_retryable (map_get _ _ _) = true
  call_retryable (map_key_set _) = true
  call_retryable (map_load_all _ _) = false
  call_retryable (map_load_given_keys _ _ _) = false
  call_retryable (map_remove _ _ _) = false
  call_retryable (map_set _ _ _ _ _) = false
  call_retryable (map_set_with_max_idle _ _ _ _ _ _) = false
  call_retryable (map_values _) = true
  call_retryable (mc_get_map_config _) = true
  call_retryable (multi_map_entry_set _) = true
  call_retryable (multi_map_get _ _ _) = true
  call_retryable (multi_map_key_set _) = true
  call_retryable (multi_map_put _ _ _ _) = false
  call_retryable (multi_map_remove _ _ _) = false
  call_retryable (multi_map_unlock _ _ _ _) = true
  call_retryable (multi_map_values _) = true
  call_retryable (queue_poll _ _) = false
  call_retryable (set_get_all _) = false
  call_retryable (set_remove _ _) = false
  call_retryable (topic_add_message_listener _ _) = false
  call_retryable (topic_publish_all _ _) = false
  call_retryable (topic_remove_message_listener _ _) = true

  abbrev pub call_fields : Call → List (Field p)
  call_fields (jet_export_snapshot job_id _ cancel_job) =
      long_field job_id ∷ bool_field cancel_job ∷ []
  call_fields jet_get_job_and_sql_summary_list = []
  call_fields (jet_resume_job job_id) = long_field job_id ∷ []
  call_fields (jet_terminate_job job_id terminate_mode light_job_coordinator) =
      long_field job_id ∷ int_field terminate_mode ∷ uuid_field light_job_coordinator ∷ []
  call_fields (jet_upload_job_meta_data session_id jar_on_member _ _ _ _ _ _) =
      uuid_field session_id ∷ bool_field jar_on_member ∷ []
  call_fields
        (jet_upload_job_multipart session_id current_part_number total_part_number _ part_size _) =
      uuid_field session_id
      ∷ int_field current_part_number
      ∷ int_field total_part_number
      ∷ int_field part_size
      ∷ []
  call_fields (list_add _ _) = []
  call_fields (list_add_with_index _ index _) = int_field index ∷ []
  call_fields (list_contains _ _) = []
  call_fields (list_remove _ _) = []
  call_fields (list_remove_with_index _ index) = int_field index ∷ []
  call_fields (list_set _ index _) = int_field index ∷ []
  call_fields (map_entry_set _) = []
  call_fields (map_get _ _ thread_id) = long_field thread_id ∷ []
  call_fields (map_key_set _) = []
  call_fields (map_load_all _ replace_existing_values) = bool_field replace_existing_values ∷ []
  call_fields (map_load_given_keys _ _ replace_existing_values) =
      bool_field replace_existing_values ∷ []
  call_fields (map_remove _ _ thread_id) = long_field thread_id ∷ []
  call_fields (map_set _ _ _ thread_id ttl) = long_field thread_id ∷ long_field ttl ∷ []
  call_fields (map_set_with_max_idle _ _ _ thread_id ttl max_idle) =
      long_field thread_id ∷ long_field ttl ∷ long_field max_idle ∷ []
  call_fields (map_values _) = []
  call_fields (mc_get_map_config _) = []
  call_fields (multi_map_entry_set _) = []
  call_fields (multi_map_get _ _ thread_id) = long_field thread_id ∷ []
  call_fields (multi_map_key_set _) = []
  call_fields (multi_map_put _ _ _ thread_id) = long_field thread_id ∷ []
  call_fields (multi_map_remove _ _ thread_id) = long_field thread_id ∷ []
  call_fields (multi_map_unlock _ _ thread_id reference_id) =
      long_field thread_id ∷ long_field reference_id ∷ []
  call_fields (multi_map_values _) = []
  call_fields (queue_poll _ timeout_millis) = long_field timeout_millis ∷ []
  call_fields (set_get_all _) = []
  call_fields (set_remove _ _) = []
  call_fields (topic_add_message_listener _ local_only) = bool_field local_only ∷ []
  call_fields (topic_publish_all _ _) = []
  call_fields (topic_remove_message_listener _ registration_id) = uuid_field registration_id ∷ []

  abbrev pub call_parts : Call → List Part
  call_parts (jet_export_snapshot _ name _) = string_part name ∷ []
  call_parts jet_get_job_and_sql_summary_list = []
  call_parts (jet_resume_job _) = []
  call_parts (jet_terminate_job _ _ _) = []
  call_parts
        (jet_upload_job_meta_data _ _ file_name sha256_hex snapshot_name job_name main_class
          job_parameters) =
      string_part file_name
      ∷ string_part sha256_hex
      ∷ nullable_part snapshot_name
      ∷ nullable_part job_name
      ∷ nullable_part main_class
      ∷ strings_part job_parameters
      ∷ []
  call_parts (jet_upload_job_multipart _ _ _ part_data _ sha256_hex) =
      bytes_part part_data ∷ string_part sha256_hex ∷ []
  call_parts (list_add name value) = string_part name ∷ data_part value ∷ []
  call_parts (list_add_with_index name _ value) = string_part name ∷ data_part value ∷ []
  call_parts (list_contains name value) = string_part name ∷ data_part value ∷ []
  call_parts (list_remove name value) = string_part name ∷ data_part value ∷ []
  call_parts (list_remove_with_index name _) = string_part name ∷ []
  call_parts (list_set name _ value) = string_part name ∷ data_part value ∷ []
  call_parts (map_entry_set name) = string_part name ∷ []
  call_parts (map_get name key _) = string_part name ∷ data_part key ∷ []
  call_parts (map_key_set name) = string_part name ∷ []
  call_parts (map_load_all name _) = string_part name ∷ []
  call_parts (map_load_given_keys name keys _) = string_part name ∷ datas_part keys ∷ []
  call_parts (map_remove name key _) = string_part name ∷ data_part key ∷ []
  call_parts (map_set name key value _ _) = string_part name ∷ data_part key ∷ data_part value ∷ []
  call_parts (map_set_with_max_idle name key value _ _ _) =
      string_part name ∷ data_part key ∷ data_part value ∷ []
  call_parts (map_values name) = string_part name ∷ []
  call_parts (mc_get_map_config map_name) = string_part map_name ∷ []
  call_parts (multi_map_entry_set name) = string_part name ∷ []
  call_parts (multi_map_get name key _) = string_part name ∷ data_part key ∷ []
  call_parts (multi_map_key_set name) = string_part name ∷ []
  call_parts (multi_map_put name key value _) =
      string_part name ∷ data_part key ∷ data_part value ∷ []
  call_parts (multi_map_remove name key _) = string_part name ∷ data_part key ∷ []
  call_parts (multi_map_unlock name key _ _) = string_part name ∷ data_part key ∷ []
  call_parts (multi_map_values name) = string_part name ∷ []
  call_parts (queue_poll name _) = string_part name ∷ []
  call_parts (set_get_all name) = string_part name ∷ []
  call_parts (set_remove name value) = string_part name ∷ data_part value ∷ []
  call_parts (topic_add_message_listener name _) = string_part name ∷ []
  call_parts (topic_publish_all name messages) = string_part name ∷ datas_part messages ∷ []
  call_parts (topic_remove_message_listener name _) = string_part name ∷ []
