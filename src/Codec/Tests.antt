-- ===== src/Codec/Tests.antt =====
-- The codecs on concrete messages, and their theorems at inputs that meet their hypotheses.
use hazelcast_commandline_cl.Prelude.{
  ℕ, ◌≡◌, refl, true, false, some, none, List, [], ◌∷◌, codes, arith, replicate,
}
use hazelcast_commandline_cl.Wire.Bytes.{put_uint, splice, le_bytes, le_value, uint}
use hazelcast_commandline_cl.Wire.Fields.{
  encode_long, encode_boolean, decode_long, decode_uuid, decode_boolean,
}
use hazelcast_commandline_cl.Wire.Sample.{
  sample, SampleMessage, SampleFrame, zero_member, first_member,
}
use hazelcast_commandline_cl.Codec.Builtin.{
  is_blank, encode_string, encode_data, encode_list_multi_frame_for_data, encode_nullable_for_data,
}
use hazelcast_commandline_cl.Codec.Carries.{Carries}
use hazelcast_commandline_cl.Codec.Requests.{request}
use hazelcast_commandline_cl.Codec.Requests.MapOps.{encode_map_set_request}
use hazelcast_commandline_cl.Codec.Calls.{Call, encode, jet_terminate_job}
use hazelcast_commandline_cl.Codec.Calls.Describes.{Describes, encode-Describes}
use hazelcast_commandline_cl.Codec.Summary.{
  JobAndSqlSummary, encode_job_and_sql_summary, decode_job_and_sql_summary,
}
use hazelcast_commandline_cl.Codec.Summary.RoundTrip.{
  JobFits, seen_job, decode-encode_job_and_sql_summary,
}
use hazelcast_commandline_cl.Codec.Responses.{handle_topic_add_message_listener}
use hazelcast_commandline_cl.Codec.Responses.Replies.{
  list_add, decode_boolean_reply-encode, decode_boolean_reply, map_values, decode_list_reply,
  decode_list_reply-encode, queue_poll, decode_nullable_reply, decode_nullable_reply-encode,
  map_entry_set, decode_entries_reply, decode_entries_reply-item_frames, handle_topic-HoldsFields,
}

-- Header, thread id and ttl of a `map set`, least significant byte first.
map_set_bytes :
    encode_map_set_request sample (codes "m") (1 ∷ []) (2 ∷ []) 258 1
    ≡ some (record {
      frames =
          (record {
            content =
                0 ∷ 0 ∷ 0 ∷ 0 ∷ 0 ∷ 0 ∷ 0 ∷ 0 ∷ 0 ∷ 0 ∷ 0 ∷ 0 ∷ 0 ∷ 0 ∷ 0 ∷ 0 ∷ 2 ∷ 1 ∷ 0 ∷ 0 ∷ 0
                ∷ 0 ∷ 0 ∷ 0 ∷ 1 ∷ 0 ∷ 0 ∷ 0 ∷ 0 ∷ 0 ∷ 0 ∷ 0 ∷ [];
            flags = 4;
          })
          ∷ (record { content = codes "m"; flags = 0 })
          ∷ (record { content = 1 ∷ []; flags = 0 })
          ∷ (record { content = 2 ∷ []; flags = 0 })
          ∷ [];
      message_type = 69376;
      retryable = false;
      partition_id = 0xffff_ffff;
    })
unfolding encode_map_set_request request encode_long put_uint splice le_bytes encode_string
    encode_data
map_set_bytes = refl

-- A no-break space and an en quad are blank; a letter is not.
blanks : is_blank (32 ∷ 0xc2 ∷ 0xa0 ∷ 0xe2 ∷ 0x80 ∷ 0x80 ∷ []) ≡ true
unfolding is_blank
blanks = refl

not_blank : is_blank (32 ∷ 0x61 ∷ []) ≡ false
unfolding is_blank
not_blank = refl

abbrev stop_job : Call sample
stop_job = jet_terminate_job 7 2 first_member

encode-Describes_example :
    (m : SampleMessage) × (encode sample stop_job ≡ some m) × Describes sample stop_job m
encode-Describes_example = encode-Describes sample stop_job (omega arith, (omega arith, (tt, tt)))

abbrev empty_message : SampleMessage
empty_message = record { frames = []; message_type = 0; retryable = false; partition_id = 0 }

abbrev running : JobAndSqlSummary
running = record {
  light_job = false;
  job_id = 0x0a1b_2c3d_4e5f;
  execution_id = 5;
  name_or_id = codes "orders";
  status = 2;
  submission_time = 1_700_000_000_000;
  completion_time = 0;
  failure_text = codes "  ";
  sql_summary = record { query = codes "SELECT 1"; unbounded = true };
  suspension_cause = [];
  user_cancelled = false;
}

running-JobFits : JobFits running
running-JobFits = omega arith

decode-encode_job_and_sql_summary_example :
    (m' : SampleMessage) × (encode_job_and_sql_summary sample empty_message running ≡ some m')
    × Carries sample empty_message m' (decode_job_and_sql_summary sample) (seen_job sample running)
decode-encode_job_and_sql_summary_example =
    decode-encode_job_and_sql_summary sample empty_message running running-JobFits

abbrev reply_frame : SampleFrame
reply_frame = record {
  content = 0 ∷ 0 ∷ 0 ∷ 0 ∷ 0 ∷ 0 ∷ 0 ∷ 0 ∷ 0 ∷ 0 ∷ 0 ∷ 0 ∷ 0 ∷ 1 ∷ [];
  flags = 4;
}

abbrev reply : List SampleFrame → SampleMessage
reply fs = record { frames = fs; message_type = 0; retryable = false; partition_id = 0 }

abbrev blank_content : List ℕ
blank_content = replicate 14 0

wrote_true : encode_boolean blank_content 13 true ≡ some reply_frame.content
unfolding encode_boolean put_uint le_bytes splice
wrote_true = refl

decode_boolean_reply-encode_example :
    decode_boolean_reply sample list_add (reply (reply_frame ∷ [])) ≡ some true
decode_boolean_reply-encode_example =
    decode_boolean_reply-encode sample list_add (reply (reply_frame ∷ [])) reply_frame []
      blank_content true refl (omega arith) wrote_true

decode_list_reply-encode_example :
    decode_list_reply sample map_values
      (encode_list_multi_frame_for_data sample (reply (reply_frame ∷ [])) ((1 ∷ []) ∷ [] ∷ []))
    ≡ some ((1 ∷ []) ∷ [] ∷ [])
decode_list_reply-encode_example =
    decode_list_reply-encode sample map_values (reply (reply_frame ∷ [])) reply_frame
      ((1 ∷ []) ∷ [] ∷ []) refl

decode_nullable_reply-encode_example :
    decode_nullable_reply sample queue_poll
      (encode_nullable_for_data sample (reply (reply_frame ∷ [])) none)
    ≡ some none
decode_nullable_reply-encode_example =
    decode_nullable_reply-encode sample queue_poll (reply (reply_frame ∷ [])) reply_frame none refl

abbrev plain : List ℕ → SampleFrame
plain b = record { content = b; flags = 0 }

abbrev entries_reply : SampleMessage
entries_reply =
    reply
      (reply_frame ∷ sample.begin_frame ∷ plain (1 ∷ []) ∷ plain (2 ∷ []) ∷ sample.end_frame ∷ [])

decode_entries_reply-item_frames_example :
    decode_entries_reply sample map_entry_set entries_reply ≡ some ((1 ∷ [], 2 ∷ []) ∷ [])
decode_entries_reply-item_frames_example =
    decode_entries_reply-item_frames sample map_entry_set entries_reply reply_frame
      sample.begin_frame sample.end_frame ((1 ∷ [], 2 ∷ []) ∷ []) refl refl

abbrev event_frame : SampleFrame
event_frame = record {
  content =
      0 ∷ 0 ∷ 0 ∷ 0 ∷ 0 ∷ 0 ∷ 0 ∷ 0 ∷ 0 ∷ 0 ∷ 0 ∷ 0 ∷ 0 ∷ 0 ∷ 0 ∷ 0 ∷ 5 ∷ 1 ∷ 0 ∷ 0 ∷ 0 ∷ 0 ∷ 0 ∷ 0
      ∷ 1 ∷ 0 ∷ 0 ∷ 0 ∷ 0 ∷ 0 ∷ 0 ∷ 0 ∷ 0 ∷ 0 ∷ 0 ∷ 0 ∷ 0 ∷ 0 ∷ 0 ∷ 0 ∷ 0 ∷ [];
  flags = 4;
}

abbrev event : SampleMessage
event = record {
  frames = event_frame ∷ [];
  message_type = 0x040202;
  retryable = false;
  partition_id = 0;
}

reads_event :
    (decode_long event_frame.content 16 ≡ some 261)
    × (decode_uuid sample event_frame.content 24 ≡ some zero_member)
unfolding decode_long decode_uuid decode_boolean uint le_value
reads_event = (refl, refl)

handle_topic-HoldsFields_example :
    (handle_topic_add_message_listener sample (encode_data sample event (7 ∷ []))
      ≡ some (some (7 ∷ [], 261, zero_member)))
    × (handle_topic_add_message_listener sample empty_message ≡ some none)
unfolding encode_data
handle_topic-HoldsFields_example =
    handle_topic-HoldsFields sample event empty_message event_frame (7 ∷ []) 261 zero_member refl
      (reads_event.0, (reads_event.1, refl)) refl (omega arith)
