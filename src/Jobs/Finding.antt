-- ===== src/Jobs/Finding.antt =====
-- base/commands/job/common.go: the maps from names to identifiers and from identifiers to jobs.
-- A Go map is a list of pairs, of which the first one with a key counts.
pub mod Latest
use hazelcast_commandline_cl.Prelude.{
  ℕ, ◌-◌, ◌^◌, Bool, true, false, ◌||◌, Option, some, none, List, [], ◌∷◌, Text, equal, ltb, ◌==◌,
  if◌then◌else◌,
}
use hazelcast_commandline_cl.Prelude.Int.{ℤ, pos, negsuc}
use hazelcast_commandline_cl.Codec.Summary.{JobAndSqlSummary}
use hazelcast_commandline_cl.Jobs.Ids.{string_to_id}

-- The int64 with this bit pattern.
abbrev pub signed : ℕ → ℤ
signed n = if ltb n (2 ^ 63) then pos n else negsuc (2 ^ 64 - 1 - n)

abbrev pub same_id : ℤ → ℤ → Bool
same_id (pos a) (pos b) = a == b
same_id (negsuc a) (negsuc b) = a == b
same_id _ _ = false

abbrev pub job_status_failed : ℕ
job_status_failed = 6

abbrev pub job_status_completed : ℕ
job_status_completed = 7

pub record JobsInfo : Type 0 where
  pub name_to_id : List (Text × ℤ)
  pub id_to_info : List (ℤ × JobAndSqlSummary)

abbrev pub is_over : JobAndSqlSummary → Bool
is_over j = j.status == job_status_failed || j.status == job_status_completed

-- The loop of `MakeJobNameIDMaps` over the rest of the list.
abbrev pub add_jobs : List JobAndSqlSummary → JobsInfo → JobsInfo
add_jobs [] m = m
add_jobs (j ∷ jobs) m = add_jobs jobs (record {
  name_to_id = if is_over j then m.name_to_id else ((j.name_or_id, signed j.job_id) ∷ m.name_to_id);
  id_to_info = (signed j.job_id, j) ∷ m.id_to_info;
})

-- `MakeJobNameIDMaps` and `NewJobNameToIDMap`
unfoldable pub make_job_name_id_maps : List JobAndSqlSummary → JobsInfo
make_job_name_id_maps job_list = add_jobs job_list (record { name_to_id = []; id_to_info = [] })

abbrev pub find_name : Text → List (Text × ℤ) → Option ℤ
find_name name [] = none
find_name name ((key, id) ∷ m) = if equal key name then some id else find_name name m

abbrev pub find_id : ℤ → List (ℤ × JobAndSqlSummary) → Option JobAndSqlSummary
find_id id [] = none
find_id id ((key, info) ∷ m) = if same_id key id then some info else find_id id m

abbrev pub or_name : Option ℤ → Option ℤ → Option ℤ
or_name (some id) by_name = some id
or_name none by_name = by_name

-- `none` is `false` in the second place.
unfoldable pub get_id_for_name : JobsInfo → Text → Option ℤ
unfolding string_to_id equal
get_id_for_name m id_or_name = or_name (string_to_id id_or_name) (find_name id_or_name m.name_to_id)

unfoldable pub get_info_for_id : JobsInfo → ℤ → Option JobAndSqlSummary
get_info_for_id m id = find_id id m.id_to_info
