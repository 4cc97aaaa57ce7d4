-- ===== src/Jobs/Waiting/Rounds.antt =====
-- When the wait for a job's state ends.
use mathlib.Core.Option.{some-injective}
use hazelcast_commandline_cl.Prelude.{
  ℕ, zero, suc, ◌≤◌, ◌≡◌, ◌≢◌, ◌↔◌, refl, ap, sym, ◌∙◌, subst, Bool, true, false, Option, some,
  none, List, [], ◌∷◌, ◌==◌, ==_iff, if◌then◌else◌, Bool-cases, ◌⊎◌, inl, inr, arith,
}
use hazelcast_commandline_cl.Prelude.Int.{ℤ}
use hazelcast_commandline_cl.Codec.Summary.{JobAndSqlSummary}
use hazelcast_commandline_cl.Jobs.Finding.{signed, same_id, job_status_failed, job_status_completed}
use hazelcast_commandline_cl.Jobs.Waiting.{
  JobError, job_failed, job_not_found, judge, ensure_job_state, Ending, after_ensure, after_list,
  wait_job_state,
}

-- The status of the first job of the list with the identifier.
abbrev pub status_of : ℤ → List JobAndSqlSummary → Option ℕ
status_of job_id [] = none
status_of job_id (j ∷ jobs) =
    if same_id (signed j.job_id) job_id then some j.status else status_of job_id jobs

abbrev by_status : ℕ → Option ℕ → Bool × ℕ × Option JobError
by_status state none = (false, 0xffff_ffff, some job_not_found)
by_status state (some status) = judge status state

ensure_job_state-status_of :
    (jobs : List JobAndSqlSummary) (job_id : ℤ) (state : ℕ)
    → ensure_job_state jobs job_id state ≡ by_status state (status_of job_id jobs)
unfolding ensure_job_state
ensure_job_state-status_of [] job_id state = refl
ensure_job_state-status_of (j ∷ jobs) job_id state =
    chosen (same_id (signed j.job_id) job_id) (ensure_job_state-status_of jobs job_id state)
  where
    chosen :
        (b : Bool)
        → ensure_job_state jobs job_id state ≡ by_status state (status_of job_id jobs)
        → (if b then judge j.status state else ensure_job_state jobs job_id state)
          ≡ by_status state (if b then some j.status else status_of job_id jobs)
    chosen true ih = refl
    chosen false ih = ih

judge-state : (state : ℕ) → judge state state ≡ (true, state, none)
judge-state state = ground arith

judge-pending :
    (status state : ℕ)
    → status ≢ state
    → status ≢ job_status_failed
    → judge status state ≡ (false, status, none)
judge-pending status state other fine = ground arith

judge-failed :
    (state : ℕ)
    → job_status_failed ≢ state
    → judge job_status_failed state ≡ (false, job_status_failed, some job_failed)
judge-failed state other = ground arith

module _ {World CallError : Type 0}
    (get_job_list : World → (List JobAndSqlSummary ⊎ CallError) × World) (sleep : World → World)
    (job_id : ℤ) (state : ℕ) where
  -- From `w`, n - 1 lists show the job in another state, which is not the failed one, and the n-th
  -- shows it in `state`.
  pub data Reaches : ℕ → World → World → Type 0 where
    now :
        {w w₁ : World} {jobs : List JobAndSqlSummary}
        → get_job_list w ≡ (inl jobs, w₁)
        → status_of job_id jobs ≡ some state
        → Reaches 1 w w₁
    later :
        {w w₁ w₂ : World} {jobs : List JobAndSqlSummary} {status n : ℕ}
        → get_job_list w ≡ (inl jobs, w₁)
        → status_of job_id jobs ≡ some status
        → status ≢ state
        → status ≢ job_status_failed
        → Reaches n (sleep w₁) w₂
        → Reaches (suc n) w w₂

  abbrev wait : ℕ → World → Option (Ending get_job_list sleep)
  wait fuel w = wait_job_state get_job_list sleep fuel job_id state w

  -- A round of the loop, on a list that shows a status.
  wait-round :
      (fuel : ℕ) (w w₁ : World) (jobs : List JobAndSqlSummary) (found : Option ℕ)
      → get_job_list w ≡ (inl jobs, w₁)
      → status_of job_id jobs ≡ found
      → wait_job_state get_job_list sleep (suc fuel) job_id state w
        ≡ after_ensure get_job_list sleep (wait fuel) w₁ (by_status state found)
  unfolding wait_job_state
  wait-round fuel w w₁ jobs found l h =
      ap (after_list get_job_list sleep (wait fuel) job_id state) l
      ∙ ap (after_ensure get_job_list sleep (wait fuel) w₁)
          (ensure_job_state-status_of jobs job_id state ∙ ap (by_status state) h)

  Reaches-wait :
      (fuel n : ℕ) (w w₁ : World)
      → n ≤ fuel
      → Reaches n w w₁
      → wait_job_state get_job_list sleep fuel job_id state w ≡ some (none, w₁)
  Reaches-wait zero n w w₁ h (now l s) = absurd (omega arith)
  Reaches-wait zero n w w₁ h (later l s o f r) = absurd (omega arith)
  Reaches-wait (suc fuel) n w w₁ h (now l s) = wait-round fuel w w₁ _ _ l s ∙ rw (judge-state state)
  Reaches-wait (suc fuel) _ w w₁ h (later {status = status} {n = n} l s o f r) =
      wait-round fuel w _ _ _ l s
      ∙ rw (judge-pending status state o f) (Reaches-wait fuel n _ w₁ (omega arith) r)

  -- A wait that ends well after one more round.
  wait-status :
      (fuel : ℕ) (w w₁ w₂ : World) (jobs : List JobAndSqlSummary) (found : Option ℕ)
      → ((w₀ : World)
          → wait_job_state get_job_list sleep fuel job_id state w₀ ≡ some (none, w₂)
          → (n : ℕ) × (n ≤ fuel) × Reaches n w₀ w₂)
      → get_job_list w ≡ (inl jobs, w₁)
      → status_of job_id jobs ≡ found
      → after_ensure get_job_list sleep (wait fuel) w₁ (by_status state found) ≡ some (none, w₂)
      → (n : ℕ) × (n ≤ suc fuel) × Reaches n w w₂
  wait-status fuel w w₁ w₂ jobs none ih l s h = cc
  wait-status fuel w w₁ w₂ jobs (some status) ih l s h = elim (Bool-cases (status == state)) [
    | inl same ↦
        let at_state : status ≡ state = (==_iff status state).0 same in
        let ended =
          subst (λ v. after_ensure get_job_list sleep (wait fuel) w₁ v ≡ some (none, w₂))
            (ap (λ x. judge x state) at_state ∙ judge-state state) h in
        (
          1,
          omega arith,
          subst (Reaches 1 w) (ap (λ e. e.1) (some-injective _ _ ended))
              (now l (s ∙ ap some at_state)),
        )
    | inr other ↦
        let differs : status ≢ state = λ e. cc (sym other, (==_iff status state).1 e) in
        elim (Bool-cases (status == job_status_failed)) [
          | inl bad ↦
              let failed : status ≡ job_status_failed = (==_iff status job_status_failed).0 bad in
              let ended =
                subst (λ v. after_ensure get_job_list sleep (wait fuel) w₁ v ≡ some (none, w₂))
                  (ap (λ x. judge x state) failed ∙ judge-failed state (λ e. differs (failed ∙ e)))
                  h in
              cc ended
          | inr fine ↦
              let no_failure : status ≢ job_status_failed =
                λ e. cc (sym fine, (==_iff status job_status_failed).1 e) in
              let ended =
                subst (λ v. after_ensure get_job_list sleep (wait fuel) w₁ v ≡ some (none, w₂))
                  (judge-pending status state differs no_failure) h in
              let (n, le, r) = ih (sleep w₁) ended in
              (suc n, omega arith, later l s differs no_failure r)
        ]
  ]

  wait-list :
      (fuel : ℕ) (w w₂ : World) (reply : (List JobAndSqlSummary ⊎ CallError) × World)
      → ((w₀ : World)
          → wait_job_state get_job_list sleep fuel job_id state w₀ ≡ some (none, w₂)
          → (n : ℕ) × (n ≤ fuel) × Reaches n w₀ w₂)
      → get_job_list w ≡ reply
      → after_list get_job_list sleep (wait fuel) job_id state reply ≡ some (none, w₂)
      → (n : ℕ) × (n ≤ suc fuel) × Reaches n w w₂
  wait-list fuel w w₂ (inr e, w₁) ih l h = cc
  wait-list fuel w w₂ (inl jobs, w₁) ih l h =
      wait-status fuel w w₁ w₂ jobs (status_of job_id jobs) ih l refl (
        ap (after_ensure get_job_list sleep (wait fuel) w₁)
          (sym (ensure_job_state-status_of jobs job_id state))
        ∙ h)

  wait-Reaches :
      (fuel : ℕ) (w w₂ : World)
      → wait_job_state get_job_list sleep fuel job_id state w ≡ some (none, w₂)
      → (n : ℕ) × (n ≤ fuel) × Reaches n w w₂
  unfolding wait_job_state
  wait-Reaches zero w w₂ h = cc
  wait-Reaches (suc fuel) w w₂ h =
      wait-list fuel w w₂ (get_job_list w) (λ w₀ h₀. wait-Reaches fuel w₀ w₂ h₀) refl h

  -- WaitJobState returns without an error, within some number of rounds, if and only if in one of
  -- them a list shows the job in the awaited state, and each earlier list shows it in another one
  -- that is not the failed state.
  pub wait_job_state-Reaches :
      (fuel : ℕ) (w w₁ : World)
      → (wait_job_state get_job_list sleep fuel job_id state w ≡ some (none, w₁))
        ↔ ((n : ℕ) × (n ≤ fuel) × Reaches n w w₁)
  wait_job_state-Reaches fuel w w₁ =
      (λ h. wait-Reaches fuel w w₁ h, λ r. Reaches-wait fuel r.0 w w₁ r.1 r.2)

  -- If every list shows the job as completed, and another state than that one is awaited, then
  -- WaitJobState does not return, however many rounds it is given.
  pub wait_job_state-completed :
      (fuel : ℕ) (w : World)
      → state ≢ job_status_completed
      → ((w₀ : World)
          → (jobs : List JobAndSqlSummary) × (w₁ : World) × (get_job_list w₀ ≡ (inl jobs, w₁))
            × (status_of job_id jobs ≡ some job_status_completed))
      → wait_job_state get_job_list sleep fuel job_id state w ≡ none
  unfolding wait_job_state
  wait_job_state-completed zero w other completed = refl
  wait_job_state-completed (suc fuel) w other completed =
      let (jobs, w₁, l, s) = completed w in
      wait-round fuel w w₁ jobs (some job_status_completed) l s
      ∙ ap (after_ensure get_job_list sleep (wait fuel) w₁) (
          judge-pending job_status_completed state (λ e. other (sym e)) (λ e. absurd (omega arith)))
      ∙ wait_job_state-completed fuel (sleep w₁) other completed
