-- ===== src/Jobs/Tests.antt =====
-- The theorems on jobs at concrete identifiers and lists of jobs.
use hazelcast_commandline_cl.Prelude.{
  ℕ, zero, suc, ◌≤◌, ◌≡◌, ◌↔◌, refl, false, some, none, List, [], ◌∷◌, Text, codes, arith, ◌⊎◌, inl,
}
use hazelcast_commandline_cl.Prelude.Int.{pos, negsuc}
use hazelcast_commandline_cl.Strings.Numbers.{parse_int, hex_reversed}
use hazelcast_commandline_cl.Codec.Summary.{JobAndSqlSummary, no_sql_summary}
use hazelcast_commandline_cl.Jobs.Ids.{id_to_string, string_to_id, without_dashes}
use hazelcast_commandline_cl.Jobs.Ids.RoundTrip.{string_to_id-id_to_string}
use hazelcast_commandline_cl.Jobs.Finding.{make_job_name_id_maps, get_id_for_name, get_info_for_id}
use hazelcast_commandline_cl.Jobs.Finding.Latest.{
  last_job, runs_as, has_id, id_of, get_id_for_name-last_job, get_info_for_id-last_job,
}
use hazelcast_commandline_cl.Jobs.Waiting.{wait_job_state, ensure_job_state}
use hazelcast_commandline_cl.Jobs.Waiting.Rounds.{
  Reaches, wait_job_state-Reaches, wait_job_state-completed,
}

printed : id_to_string (pos 665661962356523009) ≡ some (codes "093c-e807-26c0-0001")
unfolding id_to_string hex_reversed
printed = refl

string_to_id-id_to_string_example :
    (s : Text) × (id_to_string (pos 665661962356523009) ≡ some s)
    × (string_to_id s ≡ some (pos 665661962356523009))
string_to_id-id_to_string_example = string_to_id-id_to_string 665661962356523009 (omega arith)

-- A negative identifier is read back without its sign.
negative_printed : id_to_string (negsuc 0) ≡ some (codes "0000-0000-0000-00-1")
unfolding id_to_string hex_reversed
negative_printed = refl

negative_read : string_to_id (codes "0000-0000-0000-00-1") ≡ some (pos 1)
unfolding string_to_id parse_int without_dashes
negative_read = refl

-- A name made of hexadecimal digits is read as an identifier.
name_read : string_to_id (codes "feed") ≡ some (pos 65261)
unfolding string_to_id parse_int without_dashes
name_read = refl

abbrev job : ℕ → ℕ → JobAndSqlSummary
job id status = record {
  light_job = false;
  job_id = id;
  execution_id = 0;
  name_or_id = codes "orders";
  status = status;
  submission_time = 0;
  completion_time = 0;
  failure_text = [];
  sql_summary = no_sql_summary;
  suspension_cause = [];
  user_cancelled = false;
}

abbrev jobs : List JobAndSqlSummary
jobs = job 1 7 ∷ job 2 2 ∷ job 3 6 ∷ []

no_id : string_to_id (codes "orders") ≡ none
unfolding string_to_id parse_int without_dashes
no_id = refl

get_id_for_name-last_job_example :
    get_id_for_name (make_job_name_id_maps jobs) (codes "orders")
    ≡ id_of (last_job (runs_as (codes "orders")) jobs)
get_id_for_name-last_job_example = get_id_for_name-last_job jobs (codes "orders") no_id

get_info_for_id-last_job_example :
    get_info_for_id (make_job_name_id_maps jobs) (pos 3) ≡ last_job (has_id (pos 3)) jobs
get_info_for_id-last_job_example = get_info_for_id-last_job jobs (pos 3)

-- The job runs in the first list, and is suspended from the second on.
abbrev suspending : ℕ → (List JobAndSqlSummary ⊎ Text) × ℕ
suspending zero = (inl (job 1 2 ∷ []), 1)
suspending (suc n) = (inl (job 1 3 ∷ []), 2)

abbrev same_world : ℕ → ℕ
same_world w = w

wait_job_state-Reaches_example :
    (wait_job_state suspending same_world 5 (pos 1) 3 0 ≡ some (none, 2))
    ↔ ((n : ℕ) × (n ≤ 5) × Reaches suspending same_world (pos 1) 3 n 0 2)
wait_job_state-Reaches_example = wait_job_state-Reaches suspending same_world (pos 1) 3 5 0 2

suspended : wait_job_state suspending same_world 5 (pos 1) 3 0 ≡ some (none, 2)
unfolding wait_job_state ensure_job_state
suspended = refl

-- The job has completed, while its suspension is awaited.
abbrev completed : ℕ → (List JobAndSqlSummary ⊎ Text) × ℕ
completed w = (inl (job 1 7 ∷ []), w)

wait_job_state-completed_example : wait_job_state completed same_world 1000 (pos 1) 3 0 ≡ none
wait_job_state-completed_example =
    wait_job_state-completed completed same_world (pos 1) 3 1000 0 (λ e. absurd (omega arith))
      (λ w. (job 1 7 ∷ [], w, refl, refl))
