-- ===== src/Jobs/Finding/Latest.antt =====
-- What the maps find: the last job of the list.
use hazelcast_commandline_cl.Prelude.{
  ◌≡◌, refl, ap, sym, ◌∙◌, Bool, true, false, Option, some, none, List, [], ◌∷◌, Text, equal,
  if◌then◌else◌,
}
use hazelcast_commandline_cl.Prelude.Int.{ℤ}
use hazelcast_commandline_cl.Codec.Summary.{JobAndSqlSummary}
use hazelcast_commandline_cl.Jobs.Ids.{string_to_id}
use hazelcast_commandline_cl.Jobs.Finding.{
  signed, same_id, JobsInfo, is_over, add_jobs, make_job_name_id_maps, find_name, find_id, or_name,
  get_id_for_name, get_info_for_id,
}

abbrev pub or_else {ℓ} : {A : Type ℓ} → Option A → Option A → Option A
or_else (some a) b = some a
or_else none b = b

or_else_assoc {ℓ} :
    {A : Type ℓ} (a b c : Option A) → or_else (or_else a b) c ≡ or_else a (or_else b c)
or_else_assoc (some x) b c = refl
or_else_assoc none b c = refl

-- The last job of the list that passes a test.
abbrev pub last_job : (JobAndSqlSummary → Bool) → List JobAndSqlSummary → Option JobAndSqlSummary
last_job passes [] = none
last_job passes (j ∷ jobs) = or_else (last_job passes jobs) (if passes j then some j else none)

abbrev pub runs_as : Text → JobAndSqlSummary → Bool
runs_as name j = if is_over j then false else equal j.name_or_id name

abbrev pub has_id : ℤ → JobAndSqlSummary → Bool
has_id id j = same_id (signed j.job_id) id

abbrev pub id_of : Option JobAndSqlSummary → Option ℤ
id_of (some j) = some (signed j.job_id)
id_of none = none

id_of-or_else : (a b : Option JobAndSqlSummary) → id_of (or_else a b) ≡ or_else (id_of a) (id_of b)
id_of-or_else (some a) b = refl
id_of-or_else none b = refl

find_id-add_jobs :
    (id : ℤ) (jobs : List JobAndSqlSummary) (m : JobsInfo)
    → find_id id (add_jobs jobs m).id_to_info
      ≡ or_else (last_job (has_id id) jobs) (find_id id m.id_to_info)
find_id-add_jobs id [] m = refl
find_id-add_jobs id (j ∷ jobs) m =
    find_id-add_jobs id jobs _
    ∙ ap (or_else (last_job (has_id id) jobs)) (first (same_id (signed j.job_id) id))
    ∙ sym (or_else_assoc (last_job (has_id id) jobs) (if has_id id j then some j else none) _)
  where
    first :
        (b : Bool)
        → (if b then some j else find_id id m.id_to_info)
          ≡ or_else (if b then some j else none) (find_id id m.id_to_info)
    first true = refl
    first false = refl

find_name-add_jobs :
    (name : Text) (jobs : List JobAndSqlSummary) (m : JobsInfo)
    → find_name name (add_jobs jobs m).name_to_id
      ≡ or_else (id_of (last_job (runs_as name) jobs)) (find_name name m.name_to_id)
find_name-add_jobs name [] m = refl
find_name-add_jobs name (j ∷ jobs) m =
    find_name-add_jobs name jobs _
    ∙ ap (or_else (id_of (last_job (runs_as name) jobs))) (first (is_over j))
    ∙ sym (
        or_else_assoc (id_of (last_job (runs_as name) jobs))
          (id_of (if runs_as name j then some j else none)) _)
    ∙ ap (λ o. or_else o (find_name name m.name_to_id))
        (sym (id_of-or_else (last_job (runs_as name) jobs) _))
  where
    chosen :
        (same : Bool)
        → (if same then some (signed j.job_id) else find_name name m.name_to_id)
          ≡ or_else (id_of (if same then some j else none)) (find_name name m.name_to_id)
    chosen true = refl
    chosen false = refl

    first :
        (over : Bool)
        → find_name name
            (if over then m.name_to_id else ((j.name_or_id, signed j.job_id) ∷ m.name_to_id))
          ≡ or_else
              (id_of (if (if over then false else equal j.name_or_id name) then some j else none))
              (find_name name m.name_to_id)
    first true = refl
    first false = chosen (equal j.name_or_id name)

or_else-none {ℓ} : {A : Type ℓ} (o : Option A) → or_else o none ≡ o
or_else-none (some a) = refl
or_else-none none = refl

-- A name that is not read as an identifier is resolved to the identifier of the last job of the
-- list that has this name and is neither failed nor completed, if there is one.
pub get_id_for_name-last_job :
    (jobs : List JobAndSqlSummary) (name : Text)
    → string_to_id name ≡ none
    → get_id_for_name (make_job_name_id_maps jobs) name ≡ id_of (last_job (runs_as name) jobs)
unfolding get_id_for_name make_job_name_id_maps
get_id_for_name-last_job jobs name h =
    ap (λ o. or_name o (find_name name (make_job_name_id_maps jobs).name_to_id)) h
    ∙ find_name-add_jobs name jobs _
    ∙ or_else-none (id_of (last_job (runs_as name) jobs))

-- An identifier is resolved to the last job of the list that has it, failed and completed ones
-- included.
pub get_info_for_id-last_job :
    (jobs : List JobAndSqlSummary) (id : ℤ)
    → get_info_for_id (make_job_name_id_maps jobs) id ≡ last_job (has_id id) jobs
unfolding get_info_for_id make_job_name_id_maps
get_info_for_id-last_job jobs id =
    find_id-add_jobs id jobs _ ∙ or_else-none (last_job (has_id id) jobs)
