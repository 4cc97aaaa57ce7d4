-- ===== src/Codec/Summary/RoundTrip.antt =====
-- A job summary is read back as it was sent, up to blank texts.
use hazelcast_commandline_cl.Prelude.{
  ℕ, ◌+◌, ◌<◌, ◌^◌, ◌≡◌, refl, Bool, true, false, some, List, [], ◌∷◌, ◌++◌, if◌then◌else◌, length,
  arith, length-replicate, append_assoc, Bool-cases, inl, inr, le→leb,
}
use hazelcast_commandline_cl.Wire.Bytes.{Bytes, make_bytes}
use hazelcast_commandline_cl.Wire.Protocol.{Protocol}
use hazelcast_commandline_cl.Wire.Fields.{encode_boolean, decode_boolean}
use hazelcast_commandline_cl.Wire.Layout.{Field, bool_field, int_field, long_field, HoldsFields}
use hazelcast_commandline_cl.Wire.Layout.Writes.{write_fields-HoldsFields, encode_field_lem}
use hazelcast_commandline_cl.Codec.Builtin.{
  is_blank, decode_nullable_for_string, encode_string, encode_nullable_for_string, fast_forward,
  fast_forward_to_end_frame, next_frame_is_null_frame,
}
use hazelcast_commandline_cl.Codec.Carries.{Carries, seen_string, decode_string-new_frame}
use hazelcast_commandline_cl.Codec.Summary.{
  SqlSummary, JobAndSqlSummary, encode_sql_summary, decode_sql_summary,
  encode_nullable_for_sql_summary, decode_nullable_for_sql_summary, encode_summary_fields,
  encode_job_and_sql_summary, decode_user_cancelled, decode_suspension_cause,
  decode_job_and_sql_summary, summary_initial_frame_size, user_cancelled_offset,
}

-- The numbers of a summary fit their Go types.
pub record JobFits (s : JobAndSqlSummary) : Type 0 where
  pub job_id_fits : s.job_id < 256 ^ 8
  pub execution_id_fits : s.execution_id < 256 ^ 8
  pub status_fits : s.status < 256 ^ 4
  pub submission_time_fits : s.submission_time < 256 ^ 8
  pub completion_time_fits : s.completion_time < 256 ^ 8

module _ (p : Protocol) where
  open p use {
    Frame, Message, frames, add_frame, new_frame, begin_frame, end_frame, null_frame, content,
    is_end_frame, frames-add_frame, content-new_frame, new_frame-null, new_frame-end,
    begin_frame-null, end_frame-end, null_frame-null, null_frame-end, boolean_size,
    boolean_size_lem, int_size_lem, long_size_lem,
  }

  nullable_frame : Bytes → Frame
  nullable_frame v = if is_blank v then null_frame else new_frame v

  encode_nullable-eq :
      (m : Message) (v : Bytes) → encode_nullable_for_string p m v ≡ add_frame (nullable_frame v) m
  unfolding encode_nullable_for_string nullable_frame
  encode_nullable-eq m v = elim (Bool-cases (is_blank v)) [ inl b ↦ rw b | inr b ↦ rw b ]

  decode_nullable-frame :
      (v : Bytes) (rest : List Frame)
      → decode_nullable_for_string p (nullable_frame v ∷ rest) ≡ some (seen_string p v, rest)
  unfolding decode_nullable_for_string nullable_frame
  decode_nullable-frame v rest = elim (Bool-cases (is_blank v)) [
    | inl b ↦ rw b (rw null_frame-null)
    | inr b ↦ rw b (rw new_frame-null (rw content-new_frame))
  ]

  nullable_frame-end : (v : Bytes) → is_end_frame (nullable_frame v) ≡ false
  unfolding nullable_frame
  nullable_frame-end v = elim (Bool-cases (is_blank v)) [
    | inl b ↦ rw b null_frame-end
    | inr b ↦ rw b (new_frame-end v)
  ]

  decode_suspension-frame :
      (v : Bytes) (rest : List Frame)
      → decode_suspension_cause p (nullable_frame v ∷ rest) ≡ some (seen_string p v, rest)
  unfolding decode_suspension_cause
  decode_suspension-frame v rest = rw nullable_frame-end (decode_nullable-frame v rest)

  fast_forward-end_frame :
      (rest : List Frame) → fast_forward_to_end_frame p (end_frame ∷ rest) ≡ some rest
  unfolding fast_forward_to_end_frame
  fast_forward-end_frame rest = rw (end_frame-end, fast_forward)

  sql_frames : Bytes → SqlSummary → List Frame → List Frame
  sql_frames buf s rest = begin_frame ∷ new_frame buf ∷ new_frame s.query ∷ end_frame ∷ rest

  encode_unbounded :
      (b : Bool)
      → (buf : Bytes) × (encode_boolean (make_bytes (0 + boolean_size)) 0 b ≡ some buf)
        × (decode_boolean buf 0 ≡ some b)
  encode_unbounded b =
      let (buf, e, h, w) =
        encode_field_lem p (make_bytes (0 + boolean_size)) 0 (bool_field b)
          (omega (arith, length-replicate {A = ℕ} (0 + boolean_size) 0)) tt in
      (buf, e, h)

  frames-encode_sql_summary :
      (m : Message) (s : SqlSummary) (buf : Bytes)
      → encode_boolean (make_bytes (0 + boolean_size)) 0 s.unbounded ≡ some buf
      → (m' : Message) × (encode_sql_summary p m s ≡ some m')
        × (frames m' ≡ frames m ++ sql_frames buf s [])
  unfolding encode_sql_summary sql_frames
  frames-encode_sql_summary m s buf e = (
    add_frame end_frame
        (add_frame (new_frame s.query) (add_frame (new_frame buf) (add_frame begin_frame m))),
    rw e,
    simp (frames-add_frame, append_assoc),
  )

  decode_sql_summary-frames :
      (s : SqlSummary) (buf : Bytes) (rest : List Frame)
      → decode_boolean buf 0 ≡ some s.unbounded
      → decode_sql_summary p (sql_frames buf s rest) ≡ some (s, rest)
  unfolding decode_sql_summary sql_frames
  decode_sql_summary-frames s buf rest e =
      rw (content-new_frame buf) (rw e (rw content-new_frame (rw (end_frame-end, fast_forward))))

  decode_nullable_sql-frames :
      (s : SqlSummary) (buf : Bytes) (rest : List Frame)
      → decode_boolean buf 0 ≡ some s.unbounded
      → decode_nullable_for_sql_summary p (sql_frames buf s rest) ≡ some ((s, true), rest)
  unfolding decode_nullable_for_sql_summary sql_frames next_frame_is_null_frame
  decode_nullable_sql-frames s buf rest e =
      rw begin_frame-null (rw (decode_sql_summary-frames s buf rest e))

  -- A blank failure text or suspension cause comes back empty; the rest is unchanged.
  abbrev pub seen_job : JobAndSqlSummary → JobAndSqlSummary
  seen_job s = record s {
    failure_text = seen_string p s.failure_text;
    suspension_cause = seen_string p s.suspension_cause;
  }

  abbrev summary_fields : JobAndSqlSummary → List (Field p)
  summary_fields s =
      bool_field s.light_job
      ∷ long_field s.job_id
      ∷ long_field s.execution_id
      ∷ int_field s.status
      ∷ long_field s.submission_time
      ∷ long_field s.completion_time
      ∷ bool_field s.user_cancelled
      ∷ []

  encode_summary_fields_lem :
      (s : JobAndSqlSummary)
      → JobFits s
      → (buf : Bytes) × (encode_summary_fields p s ≡ some buf)
        × HoldsFields p buf 0 (summary_fields s)
  unfolding encode_summary_fields
  encode_summary_fields_lem s fits =
      let (buf, e, h, w) =
        write_fields-HoldsFields p (summary_fields s) (make_bytes (summary_initial_frame_size p)) 0
          (omega (arith, length-replicate {A = ℕ} (summary_initial_frame_size p) 0))
          (
            tt,
            (
              fits.job_id_fits,
              (
                fits.execution_id_fits,
                (
                  fits.status_fits,
                  (fits.submission_time_fits, (fits.completion_time_fits, (tt, tt))),
                ),
              ),
            ),
          ) in
      (buf, e, h)

  decode_user_cancelled_lem :
      (s : JobAndSqlSummary) (buf : Bytes)
      → HoldsFields p buf 0 (summary_fields s)
      → decode_user_cancelled p buf ≡ some s.user_cancelled
  unfolding decode_user_cancelled
  decode_user_cancelled_lem s buf h =
      rw
        (le→leb (user_cancelled_offset p + boolean_size) (length buf)
          (omega (arith, h.1.1.1.1.1.1.1)))
        h.1.1.1.1.1.1.0

  job_frames : Bytes → Bytes → JobAndSqlSummary → List Frame → List Frame
  job_frames buf sql s rest =
      begin_frame
      ∷ new_frame buf
      ∷ new_frame s.name_or_id
      ∷ nullable_frame s.failure_text
      ∷ sql_frames sql s.sql_summary (nullable_frame s.suspension_cause ∷ end_frame ∷ rest)

  decode_job-frames :
      (s : JobAndSqlSummary) (buf sql : Bytes) (rest : List Frame)
      → HoldsFields p buf 0 (summary_fields s)
      → decode_boolean sql 0 ≡ some s.sql_summary.unbounded
      → decode_job_and_sql_summary p (job_frames buf sql s rest) ≡ some (seen_job s, rest)
  unfolding decode_job_and_sql_summary job_frames
  decode_job-frames s buf sql rest h e = rw (content-new_frame buf) (
      rw h.0 (
        rw h.1.0 (
          rw h.1.1.0 (
            rw h.1.1.1.0 (
              rw h.1.1.1.1.0 (
                rw h.1.1.1.1.1.0 (
                  rw (decode_user_cancelled_lem s buf h) (
                    rw (decode_string-new_frame p s.name_or_id) (
                      rw (decode_nullable-frame s.failure_text) (
                        rw
                          (decode_nullable_sql-frames s.sql_summary sql
                            (nullable_frame s.suspension_cause ∷ end_frame ∷ rest) e)
                          (rw (decode_suspension-frame s.suspension_cause)
                            (rw (fast_forward-end_frame rest)))))))))))))

  encode_job-frames :
      (m : Message) (s : JobAndSqlSummary) (buf sql : Bytes)
      → encode_summary_fields p s ≡ some buf
      → encode_boolean (make_bytes (0 + boolean_size)) 0 s.sql_summary.unbounded ≡ some sql
      → (m' : Message) × (encode_job_and_sql_summary p m s ≡ some m')
        × (frames m' ≡ frames m ++ job_frames buf sql s [])
  unfolding encode_job_and_sql_summary encode_nullable_for_sql_summary encode_sql_summary
      encode_string job_frames sql_frames
  encode_job-frames m s buf sql e eq = (
    add_frame end_frame (
        add_frame (nullable_frame s.suspension_cause) (
          add_frame end_frame (
            add_frame (new_frame s.sql_summary.query) (
              add_frame (new_frame sql) (
                add_frame begin_frame (
                  add_frame (nullable_frame s.failure_text) (
                    add_frame (new_frame s.name_or_id)
                      (add_frame (new_frame buf) (add_frame begin_frame m))))))))),
    rw e (rw encode_nullable-eq (rw eq (rw encode_nullable-eq))),
    simp (frames-add_frame, append_assoc),
  )

  job_frames-append :
      (s : JobAndSqlSummary) (buf sql : Bytes) (rest : List Frame)
      → job_frames buf sql s [] ++ rest ≡ job_frames buf sql s rest
  unfolding job_frames sql_frames
  job_frames-append s buf sql rest = refl

  -- Encoding a summary whose numbers fit does not panic, and appends frames that decode to the
  -- summary, with a blank failure text or suspension cause emptied, whatever frames follow.
  pub decode-encode_job_and_sql_summary :
      (m : Message) (s : JobAndSqlSummary)
      → JobFits s
      → (m' : Message) × (encode_job_and_sql_summary p m s ≡ some m')
        × Carries p m m' (decode_job_and_sql_summary p) (seen_job s)
  decode-encode_job_and_sql_summary m s fits =
      let (buf, e, h) = encode_summary_fields_lem s fits in
      let (sql, eq, r) = encode_unbounded s.sql_summary.unbounded in
      let (m', em, are) = encode_job-frames m s buf sql e eq in
      (
        m',
        em,
        record {
          added = job_frames buf sql s [];
          appended = are;
          decodes =
              λ rest. rw (job_frames-append s buf sql rest) (decode_job-frames s buf sql rest h r);
        },
      )
