-- ===== src/Sql/Retry.antt =====
-- The loop of execSQL: when it returns, and with what.
use mathlib.Core.Option.{some-injective}
use hazelcast_commandline_cl.Prelude.{
  ℕ, zero, suc, ◌≤◌, ◌≡◌, ◌↔◌, refl, sym, true, false, Option, some, none, Text, arith, subst,
  Bool-cases, ◌⊎◌, inl, inr, if◌then◌else◌,
}
use hazelcast_commandline_cl.Sql.{
  GoError, Reply, Cluster, after_execute, after_context, after_client, exec_loop,
  exec_sql_with_retry,
}

module _ {World Result : Type 0} (cluster : Cluster World Result) (query : Text) where
  -- `Settles w n outcome`: from `w`, the first n - 1 executions fail to reach the cluster, and the
  -- n-th round ends the loop: the context is done, the query succeeds, or it fails otherwise.
  pub data Settles : World → ℕ → Reply Result × World → Type 0 where
    cancelled :
        {w : World} {e : GoError} → cluster.context_err w ≡ some e → Settles w 1 ((none, some e), w)
    succeeded :
        {w w₁ : World} {result : Result}
        → cluster.context_err w ≡ none
        → cluster.execute query w ≡ (inl result, w₁)
        → Settles w 1 ((some result, none), w₁)
    failed :
        {w w₁ : World} {e : GoError}
        → cluster.context_err w ≡ none
        → cluster.execute query w ≡ (inr e, w₁)
        → e.is_io ≡ false
        → Settles w 1 ((none, some e), w₁)
    unreachable :
        {w w₁ : World} {e : GoError} {n : ℕ} {outcome : Reply Result × World}
        → cluster.context_err w ≡ none
        → cluster.execute query w ≡ (inr e, w₁)
        → e.is_io ≡ true
        → Settles (cluster.sleep w₁) n outcome
        → Settles w (suc n) outcome

  Settles-exec_loop :
      (fuel n : ℕ) (w : World) (outcome : Reply Result × World)
      → n ≤ fuel
      → Settles w n outcome
      → exec_loop cluster fuel query w ≡ some outcome
  unfolding exec_loop
  Settles-exec_loop zero n w outcome h (cancelled c) = absurd (omega arith)
  Settles-exec_loop zero n w outcome h (succeeded c x) = absurd (omega arith)
  Settles-exec_loop zero n w outcome h (failed c x f) = absurd (omega arith)
  Settles-exec_loop zero n w outcome h (unreachable c x f s) = absurd (omega arith)
  Settles-exec_loop (suc fuel) n w outcome h (cancelled c) = rw c
  Settles-exec_loop (suc fuel) n w outcome h (succeeded c x) = rw (c, x)
  Settles-exec_loop (suc fuel) n w outcome h (failed c x f) = rw (c, x) (rw f)
  Settles-exec_loop (suc fuel) _ w outcome h (unreachable {n = n} c x f s) =
      rw (c, x) (rw f (Settles-exec_loop fuel n _ outcome (omega arith) s))

  -- The rounds that a returning loop has taken.
  abbrev Rounds : ℕ → World → Reply Result × World → Type 0
  Rounds fuel w outcome = (n : ℕ) × (n ≤ fuel) × Settles w n outcome

  after_execute-Rounds :
      (fuel : ℕ) (w : World)
      → ((w₁ : World) (outcome : Reply Result × World)
          → exec_loop cluster fuel query w₁ ≡ some outcome
          → Rounds fuel w₁ outcome)
      → cluster.context_err w ≡ none
      → (reply : (Result ⊎ GoError) × World) → cluster.execute query w ≡ reply
      → (outcome : Reply Result × World)
      → after_execute cluster (exec_loop cluster fuel query) reply ≡ some outcome
      → Rounds (suc fuel) w outcome
  after_execute-Rounds fuel w ih c (inl result, w₁) x outcome h =
      subst (Rounds (suc fuel) w) (some-injective _ _ h) (1, omega arith, succeeded c x)
  after_execute-Rounds fuel w ih c (inr e, w₁) x outcome h = elim (Bool-cases e.is_io) [
    | inl io ↦
        let (n, le, s) = ih (cluster.sleep w₁) outcome (
          subst
            (λ b.
              (if b
                then exec_loop cluster fuel query (cluster.sleep w₁)
                else some ((none, some e), w₁))
              ≡ some outcome)
            io h) in
        (suc n, omega arith, unreachable c x io s)
    | inr other ↦
        subst (Rounds (suc fuel) w)
          (some-injective _ _ (
            subst
              (λ b.
                (if b
                  then exec_loop cluster fuel query (cluster.sleep w₁)
                  else some ((none, some e), w₁))
                ≡ some outcome)
              other h))
          (1, omega arith, failed c x other)
  ]

  after_context-Rounds :
      (fuel : ℕ) (w : World)
      → ((w₁ : World) (outcome : Reply Result × World)
          → exec_loop cluster fuel query w₁ ≡ some outcome
          → Rounds fuel w₁ outcome)
      → (context : Option GoError) → cluster.context_err w ≡ context
      → (outcome : Reply Result × World)
      → after_context cluster (exec_loop cluster fuel query) query w context ≡ some outcome
      → Rounds (suc fuel) w outcome
  after_context-Rounds fuel w ih (some e) c outcome h =
      subst (Rounds (suc fuel) w) (some-injective _ _ h) (1, omega arith, cancelled c)
  after_context-Rounds fuel w ih none c outcome h =
      after_execute-Rounds fuel w ih c (cluster.execute query w) refl outcome h

  exec_loop-Rounds :
      (fuel : ℕ) (w : World) (outcome : Reply Result × World)
      → exec_loop cluster fuel query w ≡ some outcome
      → Rounds fuel w outcome
  unfolding exec_loop
  exec_loop-Rounds zero w outcome h = cc
  exec_loop-Rounds (suc fuel) w outcome h =
      after_context-Rounds fuel w (exec_loop-Rounds fuel) (cluster.context_err w) refl outcome h

  -- If a client is there, in a state that it may have reached by connecting: within some fuel,
  -- `execSQL` returns with an outcome if and only if it settles on it, from that state, in at most that
  -- many rounds, which go on exactly while the cluster cannot be reached and the context is not done.
  pub exec_sql_with_retry-Settles :
      (fuel : ℕ) (w w₀ : World) (outcome : Reply Result × World)
      → cluster.client w ≡ (none, w₀)
      → (exec_sql_with_retry cluster fuel query w ≡ some outcome)
        ↔ ((n : ℕ) × (n ≤ fuel) × Settles w₀ n outcome)
  unfolding exec_sql_with_retry
  exec_sql_with_retry-Settles fuel w w₀ outcome c = (
    λ h.
        exec_loop-Rounds fuel w₀ outcome
          (subst (λ o. after_client cluster fuel query o ≡ some outcome) c h),
    λ r.
        subst (λ o. after_client cluster fuel query o ≡ some outcome) (sym c)
          (Settles-exec_loop fuel r.0 w₀ outcome r.1 r.2),
  )

  abbrev pub OneOf : Reply Result × World → Type 0
  OneOf outcome =
      ((result : Result) × (outcome.0 ≡ (some result, none)))
      ⊎ ((e : GoError) × (outcome.0 ≡ (none, some e)))

  Settles-OneOf :
      (w : World) (n : ℕ) (outcome : Reply Result × World) → Settles w n outcome → OneOf outcome
  Settles-OneOf w n outcome (cancelled c) = inr (_, refl)
  Settles-OneOf w n outcome (succeeded c x) = inl (_, refl)
  Settles-OneOf w n outcome (failed c x f) = inr (_, refl)
  Settles-OneOf w n outcome (unreachable c x f s) = Settles-OneOf _ _ outcome s

  after_client-OneOf :
      (fuel : ℕ) (outcome : Reply Result × World) (client : Option GoError × World)
      → after_client cluster fuel query client ≡ some outcome
      → OneOf outcome
  after_client-OneOf fuel outcome (some e, w) h = subst OneOf (some-injective _ _ h) (inr (e, refl))
  after_client-OneOf fuel outcome (none, w) h =
      let (n, le, s) = exec_loop-Rounds fuel w outcome h in Settles-OneOf w n outcome s

  -- If execSQL returns, it is with a result or with an error, never with both or neither.
  pub exec_sql_with_retry-OneOf :
      (fuel : ℕ) (w : World) (outcome : Reply Result × World)
      → exec_sql_with_retry cluster fuel query w ≡ some outcome
      → OneOf outcome
  unfolding exec_sql_with_retry
  exec_sql_with_retry-OneOf fuel w outcome h = after_client-OneOf fuel outcome (cluster.client w) h
