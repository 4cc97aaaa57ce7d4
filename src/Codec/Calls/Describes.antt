-- ===== src/Codec/Calls/Describes.antt =====
-- Every request holds what its call asks for.
use hazelcast_commandline_cl.Prelude.{
  ℕ, ◌+◌, ◌≤◌, ◌≡◌, refl, ap, ◌∙◌, Bool, Option, some, none, List, [], ◌∷◌, ◌++◌, ◌>>=◌, length,
  All, arith, length-replicate,
}
use hazelcast_commandline_cl.Wire.Bytes.{Bytes, make_bytes, uint, slice}
use hazelcast_commandline_cl.Wire.Protocol.{Protocol}
use hazelcast_commandline_cl.Wire.Layout.{
  Field, field_size, fields_size, FieldFits, HoldsFields, encode_field, write_fields,
}
use hazelcast_commandline_cl.Wire.Layout.Writes.{write_fields-HoldsFields, HoldsFields-Agree}
use hazelcast_commandline_cl.Codec.Requests.{first_field_offset, no_partition, request}
use hazelcast_commandline_cl.Codec.Calls.Parts.{
  HoldsParts, write_parts, write_parts-HoldsParts, write_parts-Extends,
}
use hazelcast_commandline_cl.Codec.Calls.{
  Call, encode, call_type, call_retryable, call_fields, call_parts, jet_export_snapshot,
  jet_get_job_and_sql_summary_list, jet_resume_job, jet_terminate_job, jet_upload_job_meta_data,
  jet_upload_job_multipart, list_add, list_add_with_index, list_contains, list_remove,
  list_remove_with_index, list_set, map_entry_set, map_get, map_key_set, map_load_all,
  map_load_given_keys, map_remove, map_set, map_set_with_max_idle, map_values, mc_get_map_config,
  multi_map_entry_set, multi_map_get, multi_map_key_set, multi_map_put, multi_map_remove,
  multi_map_unlock, multi_map_values, queue_poll, set_get_all, set_remove,
  topic_add_message_listener, topic_publish_all, topic_remove_message_listener,
}

module _ (p : Protocol) where
  open p use {
    Frame, Message, frames, content, message_type, retryable, new_message, set_retryable, add_frame,
    new_frame_with, unfragmented_message, set_message_type, stamp_type, stamp_partition, frames-new,
    frames-set_retryable, frames-add_frame, frames-set_message_type, frames-set_partition_id,
    length-stamp_type, length-stamp_partition, slice-stamp_type, slice-stamp_partition,
    retryable-set_retryable, retryable-add_frame, retryable-set_message_type,
    retryable-set_partition_id, type-set_message_type, type-set_partition_id,
    content-new_frame_with,
  }

  -- The values of the call fit their fields.
  abbrev pub CallFits : Call p → Type 0
  CallFits c = All (FieldFits p) (call_fields p c)

  -- The message of a call: type, retry flag, the fields of the initial frame, and the parts.
  pub record Describes (c : Call p) (m : Message) : Type 0 where
    pub initial : Frame
    pub behind : List Frame
    pub frames_are : frames m ≡ initial ∷ behind
    pub type_is : message_type m ≡ call_type p c
    pub retry_is : retryable m ≡ call_retryable p c
    pub fields_are : HoldsFields p (content initial) (first_field_offset p) (call_fields p c)
    pub parts_are : HoldsParts p (call_parts p c) behind

  abbrev write_then : {A : Type 0} → Bytes → ℕ → List (Field p) → (Bytes → Option A) → Option A
  write_then buf off [] k = k buf
  write_then buf off (f ∷ fs) k =
      encode_field p buf off f >>= λ out. write_then out (off + field_size p f) fs k

  write_then-write_fields :
      {A : Type 0} (fs : List (Field p)) (buf : Bytes) (off : ℕ) (k : Bytes → Option A)
      → write_then buf off fs k ≡ (write_fields p buf off fs >>= k)
  write_then-write_fields [] buf off k = refl
  write_then-write_fields (f ∷ fs) buf off k =
      go (encode_field p buf off f) (λ b. write_then-write_fields fs b (off + field_size p f) k)
    where
      go :
          (first : Option Bytes)
          → ((b : Bytes)
              → write_then b (off + field_size p f) fs k
                ≡ (write_fields p b (off + field_size p f) fs >>= k))
          → (first >>= λ b. write_then b (off + field_size p f) fs k)
            ≡ ((first >>= λ b. write_fields p b (off + field_size p f) fs) >>= k)
      go none ih = refl
      go (some b) ih = ih b

  abbrev fields_end : ℕ → List (Field p) → ℕ
  fields_end off [] = off
  fields_end off (f ∷ fs) = fields_end (off + field_size p f) fs

  fields_end-eq : (fs : List (Field p)) (off : ℕ) → fields_end off fs ≡ off + fields_size p fs
  fields_end-eq [] off = omega arith
  fields_end-eq (f ∷ fs) off = omega (arith, fields_end-eq fs (off + field_size p f))

  abbrev write_call : Call p → Option Message
  write_call c =
      write_then (make_bytes (fields_end (first_field_offset p) (call_fields p c)))
        (first_field_offset p) (call_fields p c)
        (λ buf.
          some
            (write_parts p (request p (call_retryable p c) buf (call_type p c)) (call_parts p c)))

  encode-write_call : (c : Call p) → encode p c ≡ write_call c
  unfolding encode
  encode-write_call (jet_export_snapshot job_id name cancel_job) = refl
  encode-write_call jet_get_job_and_sql_summary_list = refl
  encode-write_call (jet_resume_job job_id) = refl
  encode-write_call (jet_terminate_job job_id terminate_mode light_job_coordinator) = refl
  encode-write_call
        (jet_upload_job_meta_data session_id jar_on_member file_name sha256_hex snapshot_name
          job_name main_class job_parameters) =
      refl
  encode-write_call
        (jet_upload_job_multipart session_id current_part_number total_part_number part_data
          part_size sha256_hex) =
      refl
  encode-write_call (list_add name value) = refl
  encode-write_call (list_add_with_index name index value) = refl
  encode-write_call (list_contains name value) = refl
  encode-write_call (list_remove name value) = refl
  encode-write_call (list_remove_with_index name index) = refl
  encode-write_call (list_set name index value) = refl
  encode-write_call (map_entry_set name) = refl
  encode-write_call (map_get name key thread_id) = refl
  encode-write_call (map_key_set name) = refl
  encode-write_call (map_load_all name replace_existing_values) = refl
  encode-write_call (map_load_given_keys name keys replace_existing_values) = refl
  encode-write_call (map_remove name key thread_id) = refl
  encode-write_call (map_set name key value thread_id ttl) = refl
  encode-write_call (map_set_with_max_idle name key value thread_id ttl max_idle) = refl
  encode-write_call (map_values name) = refl
  encode-write_call (mc_get_map_config map_name) = refl
  encode-write_call (multi_map_entry_set name) = refl
  encode-write_call (multi_map_get name key thread_id) = refl
  encode-write_call (multi_map_key_set name) = refl
  encode-write_call (multi_map_put name key value thread_id) = refl
  encode-write_call (multi_map_remove name key thread_id) = refl
  encode-write_call (multi_map_unlock name key thread_id reference_id) = refl
  encode-write_call (multi_map_values name) = refl
  encode-write_call (queue_poll name timeout_millis) = refl
  encode-write_call (set_get_all name) = refl
  encode-write_call (set_remove name value) = refl
  encode-write_call (topic_add_message_listener name local_only) = refl
  encode-write_call (topic_publish_all name messages) = refl
  encode-write_call (topic_remove_message_listener name registration_id) = refl

  uint-eq :
      (a b : Bytes) (j o : ℕ)
      → length a ≡ length b
      → slice a o j ≡ slice b o j
      → uint j a o ≡ uint j b o
  unfolding uint
  uint-eq a b j o l e = rw (l, e)

  stamped : Bytes → ℕ → Frame
  stamped buf type' =
      stamp_partition no_partition (stamp_type type' (new_frame_with buf unfragmented_message))

  frames-request :
      (retry : Bool) (buf : Bytes) (type' : ℕ)
      → frames (request p retry buf type') ≡ stamped buf type' ∷ []
  unfolding request stamped
  frames-request retry buf type' = frames-set_partition_id no_partition _ _ [] (
      frames-set_message_type type' _ _ []
        (rw frames-add_frame (rw frames-set_retryable (rw frames-new))))

  retryable-request :
      (retry : Bool) (buf : Bytes) (type' : ℕ) → retryable (request p retry buf type') ≡ retry
  unfolding request
  retryable-request retry buf type' =
      retryable-set_partition_id no_partition _
      ∙ retryable-set_message_type type' _
      ∙ retryable-add_frame _ _
      ∙ retryable-set_retryable retry new_message

  type-request :
      (retry : Bool) (buf : Bytes) (type' : ℕ) → message_type (request p retry buf type') ≡ type'
  unfolding request
  type-request retry buf type' =
      type-set_partition_id no_partition _
      ∙ type-set_message_type type' _ (new_frame_with buf unfragmented_message) []
          (rw frames-add_frame (rw frames-set_retryable (rw frames-new)))

  length-stamped : (buf : Bytes) (type' : ℕ) → length (content (stamped buf type')) ≡ length buf
  unfolding stamped
  length-stamped buf type' =
      length-stamp_partition no_partition _
      ∙ length-stamp_type type' _
      ∙ ap length (content-new_frame_with buf unfragmented_message)

  slice-stamped :
      (buf : Bytes) (type' o j : ℕ)
      → first_field_offset p ≤ o
      → slice (content (stamped buf type')) o j ≡ slice buf o j
  unfolding stamped
  slice-stamped buf type' o j h =
      slice-stamp_partition no_partition _ o j h
      ∙ slice-stamp_type type' _ o j h
      ∙ ap (λ b. slice b o j) (content-new_frame_with buf unfragmented_message)

  HoldsFields-stamped :
      (fs : List (Field p)) (buf : Bytes) (type' : ℕ)
      → HoldsFields p buf (first_field_offset p) fs
      → HoldsFields p (content (stamped buf type')) (first_field_offset p) fs
  HoldsFields-stamped fs buf type' =
      HoldsFields-Agree p fs (content (stamped buf type')) buf (first_field_offset p)
        (length-stamped buf type')
        (λ j o h. uint-eq _ buf j o (length-stamped buf type') (slice-stamped buf type' o j h))

  Describes-write_parts :
      (c : Call p) (buf : Bytes)
      → HoldsFields p buf (first_field_offset p) (call_fields p c)
      → Describes c
          (write_parts p (request p (call_retryable p c) buf (call_type p c)) (call_parts p c))
  Describes-write_parts c buf held =
      let start = request p (call_retryable p c) buf (call_type p c) in
      let grown = write_parts-Extends p (call_parts p c) start in
      let (added, are, parts) = write_parts-HoldsParts p (call_parts p c) start in
      let begin = frames-request (call_retryable p c) buf (call_type p c) in
      record {
        initial = stamped buf (call_type p c);
        behind = added;
        frames_are = are ∙ ap (λ (l : List Frame). l ++ added) begin;
        type_is =
            grown.type_same (stamped buf (call_type p c)) [] begin
            ∙ type-request (call_retryable p c) buf (call_type p c);
        retry_is = grown.retry_same ∙ retryable-request (call_retryable p c) buf (call_type p c);
        fields_are = HoldsFields-stamped (call_fields p c) buf (call_type p c) held;
        parts_are = parts;
      }

  -- If the values of a call fit their fields, its encoder does not panic, and its message has the
  -- type and retry flag of the call, an initial frame whose fields, read with the decoders of their
  -- types, are the call's values with no gap and nothing behind, and frames that decode to the
  -- call's parts in order, with a blank nullable string read back as empty.
  pub encode-Describes :
      (c : Call p) → CallFits c → (m : Message) × (encode p c ≡ some m) × Describes c m
  encode-Describes c fits =
      let fs = call_fields p c in
      let buf = make_bytes (fields_end (first_field_offset p) fs) in
      let (out, written, held, w) =
        write_fields-HoldsFields p fs buf (first_field_offset p)
          (omega (
            arith,
            fields_end-eq fs (first_field_offset p),
            length-replicate {A = ℕ} (fields_end (first_field_offset p) fs) 0,
          ))
          fits in
      (
        write_parts p (request p (call_retryable p c) out (call_type p c)) (call_parts p c),
        encode-write_call c ∙ write_then-write_fields fs buf (first_field_offset p) _ ∙ rw written,
        Describes-write_parts c out held,
      )
