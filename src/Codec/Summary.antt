-- ===== src/Codec/Summary.antt =====
-- sql_summary_codec.go and job_and_sql_summary_codec.go, over the records of
-- internal/proto/codec/control, and jet_get_job_and_sql_summary_list_codec.go's response.
-- The int32 and int64 fields are bit patterns.
pub mod RoundTrip
use hazelcast_commandline_cl.Prelude.{
  ℕ, ◌+◌, Bool, true, false, Option, some, none, List, [], ◌∷◌, leb, if◌then◌else◌, ◌>>=◌, length,
}
use hazelcast_commandline_cl.Wire.Bytes.{Bytes, make_bytes}
use hazelcast_commandline_cl.Wire.Protocol.{Protocol}
use hazelcast_commandline_cl.Wire.Fields.{
  encode_boolean, decode_boolean, encode_long, decode_long, encode_int, decode_int,
}
use hazelcast_commandline_cl.Codec.Builtin.{
  Decoder, next, peek_next, decode_string, decode_nullable_for_string, encode_string,
  encode_nullable_for_string, fast_forward_to_end_frame, next_frame_is_null_frame,
}
use hazelcast_commandline_cl.Codec.Builtin.Items.{decode_list_of}

pub record SqlSummary : Type 0 where
  pub query : Bytes
  pub unbounded : Bool

pub record JobAndSqlSummary : Type 0 where
  pub light_job : Bool
  pub job_id : ℕ
  pub execution_id : ℕ
  pub name_or_id : Bytes
  pub status : ℕ
  pub submission_time : ℕ
  pub completion_time : ℕ
  pub failure_text : Bytes
  pub sql_summary : SqlSummary
  pub suspension_cause : Bytes
  pub user_cancelled : Bool

-- `control.SqlSummary{}`
abbrev pub no_sql_summary : SqlSummary
no_sql_summary = record { query = []; unbounded = false }

module _ (p : Protocol) where
  open p use {
    Message, add_frame, new_frame, begin_frame, end_frame, content, is_end_frame, null_frame,
    boolean_size, int_size, long_size, frames,
  }

  unfoldable pub encode_sql_summary : Message → SqlSummary → Option Message
  unfolding encode_string
  encode_sql_summary client_message sql_summary = do
    let message₁ = add_frame begin_frame client_message
    buf ← encode_boolean (make_bytes (0 + boolean_size)) 0 sql_summary.unbounded
    let message₂ = add_frame (new_frame buf) message₁
    let message₃ = encode_string p message₂ sql_summary.query
    some (add_frame end_frame message₃)

  unfoldable pub decode_sql_summary : Decoder p SqlSummary
  unfolding decode_string fast_forward_to_end_frame
  decode_sql_summary it = do
    (begin, it₁) ← next p it
    (initial_frame, it₂) ← next p it₁
    unbounded ← decode_boolean (content initial_frame) 0
    (query, it₃) ← decode_string p it₂
    it₄ ← fast_forward_to_end_frame p it₃
    some (record { query = query; unbounded = unbounded }, it₄)

  -- A nil pointer is `none`.
  unfoldable pub encode_nullable_for_sql_summary : Message → Option SqlSummary → Option Message
  encode_nullable_for_sql_summary message none = some (add_frame null_frame message)
  encode_nullable_for_sql_summary message (some summary) = encode_sql_summary message summary

  -- The summary, and whether there was one.
  unfoldable pub decode_nullable_for_sql_summary : Decoder p (SqlSummary × Bool)
  decode_nullable_for_sql_summary it = do
    (null, it₁) ← next_frame_is_null_frame p it
    if null
        then some ((no_sql_summary, false), it₁)
        else (do (ss, it₂) ← decode_sql_summary it₁; some ((ss, true), it₂))

  -- The offsets of the initial frame, one behind the other.
  abbrev pub job_id_offset : ℕ
  job_id_offset = 0 + boolean_size

  abbrev pub execution_id_offset : ℕ
  execution_id_offset = job_id_offset + long_size

  abbrev pub status_offset : ℕ
  status_offset = execution_id_offset + long_size

  abbrev pub submission_time_offset : ℕ
  submission_time_offset = status_offset + int_size

  abbrev pub completion_time_offset : ℕ
  completion_time_offset = submission_time_offset + long_size

  abbrev pub user_cancelled_offset : ℕ
  user_cancelled_offset = completion_time_offset + long_size

  abbrev pub summary_initial_frame_size : ℕ
  summary_initial_frame_size = user_cancelled_offset + boolean_size

  unfoldable pub encode_summary_fields : JobAndSqlSummary → Option Bytes
  encode_summary_fields summary = do
    buf₁ ← encode_boolean (make_bytes summary_initial_frame_size) 0 summary.light_job
    buf₂ ← encode_long buf₁ job_id_offset summary.job_id
    buf₃ ← encode_long buf₂ execution_id_offset summary.execution_id
    buf₄ ← encode_int buf₃ status_offset summary.status
    buf₅ ← encode_long buf₄ submission_time_offset summary.submission_time
    buf₆ ← encode_long buf₅ completion_time_offset summary.completion_time
    buf₇ ← encode_boolean buf₆ user_cancelled_offset summary.user_cancelled
    some buf₇

  unfoldable pub encode_job_and_sql_summary : Message → JobAndSqlSummary → Option Message
  encode_job_and_sql_summary client_message summary = do
    let message₁ = add_frame begin_frame client_message
    buf ← encode_summary_fields summary
    let message₂ = add_frame (new_frame buf) message₁
    let message₃ = encode_string p message₂ summary.name_or_id
    let message₄ = encode_nullable_for_string p message₃ summary.failure_text
    message₅ ← encode_nullable_for_sql_summary message₄ (some summary.sql_summary)
    let message₆ = encode_nullable_for_string p message₅ summary.suspension_cause
    some (add_frame end_frame message₆)

  -- A frame of an older member has no `UserCancelled`.
  unfoldable pub decode_user_cancelled : Bytes → Option Bool
  decode_user_cancelled buf =
      if leb (user_cancelled_offset + boolean_size) (length buf)
      then decode_boolean buf user_cancelled_offset
      else some false

  -- An older member may send no suspension cause.
  unfoldable pub decode_suspension_cause : Decoder p Bytes
  decode_suspension_cause it = do
    f ← peek_next p it
    if is_end_frame f then some ([], it) else decode_nullable_for_string p it

  unfoldable pub decode_job_and_sql_summary : Decoder p JobAndSqlSummary
  decode_job_and_sql_summary it = do
    (begin, it₁) ← next p it
    (initial_frame, it₂) ← next p it₁
    let buf = content initial_frame
    light_job ← decode_boolean buf 0
    job_id ← decode_long buf job_id_offset
    execution_id ← decode_long buf execution_id_offset
    status ← decode_int buf status_offset
    submission_time ← decode_long buf submission_time_offset
    completion_time ← decode_long buf completion_time_offset
    user_cancelled ← decode_user_cancelled buf
    (name_or_id, it₃) ← decode_string p it₂
    (failure_text, it₄) ← decode_nullable_for_string p it₃
    (sql_summary, it₅) ← decode_nullable_for_sql_summary it₄
    (suspension_cause, it₆) ← decode_suspension_cause it₅
    it₇ ← fast_forward_to_end_frame p it₆
    some (
      record {
        light_job = light_job;
        job_id = job_id;
        execution_id = execution_id;
        name_or_id = name_or_id;
        status = status;
        submission_time = submission_time;
        completion_time = completion_time;
        failure_text = failure_text;
        sql_summary = sql_summary.0;
        suspension_cause = suspension_cause;
        user_cancelled = user_cancelled;
      },
      it₇,
    )

  unfoldable pub decode_list_multi_frame_for_job_and_sql_summary : Decoder p (List JobAndSqlSummary)
  decode_list_multi_frame_for_job_and_sql_summary = decode_list_of p decode_job_and_sql_summary

  unfoldable pub decode_jet_get_job_and_sql_summary_list_response :
      Message → Option (List JobAndSqlSummary)
  decode_jet_get_job_and_sql_summary_list_response client_message = do
    (initial, it₁) ← next p (frames client_message)
    (jobs, it₂) ← decode_list_multi_frame_for_job_and_sql_summary it₁
    some jobs
