-- ===== src/Codec/Requests/Jet.antt =====
-- The jet_*_codec.go files: requests about jobs.
use hazelcast_commandline_cl.Prelude.{◌+◌, Option, some, ◌>>=◌, true, false, List, ℕ, Bool}
use hazelcast_commandline_cl.Wire.Bytes.{Bytes, make_bytes}
use hazelcast_commandline_cl.Wire.Protocol.{Protocol}
use hazelcast_commandline_cl.Wire.Fields.{encode_boolean, encode_int, encode_long, encode_uuid}
use hazelcast_commandline_cl.Codec.Builtin.{
  encode_byte_array, encode_list_multi_frame_for_string, encode_nullable_for_string, encode_string,
}
use hazelcast_commandline_cl.Codec.Requests.{first_field_offset, request}

module _ (p : Protocol) where
  open p use {Message, boolean_size, int_size, long_size, uuid_size, Uuid}

  unfoldable pub encode_jet_export_snapshot_request : ℕ → Bytes → Bool → Option Message
  encode_jet_export_snapshot_request job_id name cancel_job = do
    let job_id_offset = first_field_offset p
    let cancel_job_offset = job_id_offset + long_size
    let initial_frame_size = cancel_job_offset + boolean_size
    buf₁ ← encode_long (make_bytes initial_frame_size) job_id_offset job_id
    buf₂ ← encode_boolean buf₁ cancel_job_offset cancel_job
    some (encode_string p (request p false buf₂ 0xfe0a00) name)

  unfoldable pub encode_jet_get_job_and_sql_summary_list_request : Option Message
  encode_jet_get_job_and_sql_summary_list_request =
      some (request p true (make_bytes (first_field_offset p)) 0xfe0f00)

  unfoldable pub encode_jet_resume_job_request : ℕ → Option Message
  encode_jet_resume_job_request job_id = do
    let job_id_offset = first_field_offset p
    let initial_frame_size = job_id_offset + long_size
    buf₁ ← encode_long (make_bytes initial_frame_size) job_id_offset job_id
    some (request p false buf₁ 0xfe0900)

  unfoldable pub encode_jet_terminate_job_request : ℕ → ℕ → Uuid → Option Message
  encode_jet_terminate_job_request job_id terminate_mode light_job_coordinator = do
    let job_id_offset = first_field_offset p
    let terminate_mode_offset = job_id_offset + long_size
    let light_job_coordinator_offset = terminate_mode_offset + int_size
    let initial_frame_size = light_job_coordinator_offset + uuid_size
    buf₁ ← encode_long (make_bytes initial_frame_size) job_id_offset job_id
    buf₂ ← encode_int buf₁ terminate_mode_offset terminate_mode
    buf₃ ← encode_uuid p buf₂ light_job_coordinator_offset light_job_coordinator
    some (request p false buf₃ 0xfe0200)

  unfoldable pub encode_jet_upload_job_meta_data_request :
      Uuid → Bool → Bytes → Bytes → Bytes → Bytes → Bytes → List Bytes → Option Message
  encode_jet_upload_job_meta_data_request session_id jar_on_member file_name sha256_hex
        snapshot_name job_name main_class job_parameters =
      do
        let session_id_offset = first_field_offset p
        let jar_on_member_offset = session_id_offset + uuid_size
        let initial_frame_size = jar_on_member_offset + boolean_size
        buf₁ ← encode_uuid p (make_bytes initial_frame_size) session_id_offset session_id
        buf₂ ← encode_boolean buf₁ jar_on_member_offset jar_on_member
        some (
            encode_list_multi_frame_for_string p
              (encode_nullable_for_string p
                (encode_nullable_for_string p
                  (encode_nullable_for_string p
                    (encode_string p (encode_string p (request p true buf₂ 0xfe1100) file_name)
                      sha256_hex)
                    snapshot_name)
                  job_name)
                main_class)
              job_parameters)

  unfoldable pub encode_jet_upload_job_multipart_request :
      Uuid → ℕ → ℕ → Bytes → ℕ → Bytes → Option Message
  encode_jet_upload_job_multipart_request session_id current_part_number total_part_number part_data
        part_size sha256_hex =
      do
        let session_id_offset = first_field_offset p
        let current_part_number_offset = session_id_offset + uuid_size
        let total_part_number_offset = current_part_number_offset + int_size
        let part_size_offset = total_part_number_offset + int_size
        let initial_frame_size = part_size_offset + int_size
        buf₁ ← encode_uuid p (make_bytes initial_frame_size) session_id_offset session_id
        buf₂ ← encode_int buf₁ current_part_number_offset current_part_number
        buf₃ ← encode_int buf₂ total_part_number_offset total_part_number
        buf₄ ← encode_int buf₃ part_size_offset part_size
        some (
            encode_string p (encode_byte_array p (request p true buf₄ 0xfe1200) part_data)
              sha256_hex)
