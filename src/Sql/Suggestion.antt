-- ===== src/Sql/Suggestion.antt =====
-- What ExecSQL makes of an error, with --use-mapping-suggestion and without it.
use mathlib.Core.Option.{some-injective}
use hazelcast_commandline_cl.Prelude.{
  ℕ, ◌≡◌, ◌↔◌, refl, ap, ◌∙◌, subst, Bool, true, false, not, ◌&&◌, Option, some, none, [], Text,
  equal, equal_iff, Bool-cases, ◌>>=◌, inl, inr, if◌then◌else◌,
}
use hazelcast_commandline_cl.Sql.{
  SqlError, GoError, Reply, Cluster, exec_sql_with_retry, exec_sql, on_sql_error, after_first,
  after_suggestion, adapt_sql_error, with_hint,
}
use hazelcast_commandline_cl.Sql.Retry.{exec_sql_with_retry-OneOf, OneOf}

module _ {World Result : Type 0} (cluster : Cluster World Result) (query : Text) where
  -- Neither a result nor an error.
  abbrev pub nothing : World → Reply Result × World
  nothing w = ((none, none), w)

  OneOf-nothing : (w : World) → ¬ OneOf cluster query (nothing w)
  OneOf-nothing w (inl (result, h)) = cc
  OneOf-nothing w (inr (e, h)) = cc

  after_suggestion-nothing :
      (fuel : ℕ) (r : Reply Result × World) (w : World)
      → ¬ (after_suggestion cluster fuel query r ≡ some (nothing w))
  after_suggestion-nothing fuel ((suggested, some e), w₁) w h = cc
  after_suggestion-nothing fuel ((suggested, none), w₁) w h =
      OneOf-nothing w (exec_sql_with_retry-OneOf cluster query fuel w₁ (nothing w) h)

  -- The first execution fails with an SQL error that has no suggestion.
  abbrev pub FailsPlainly : Reply Result × World → World → Type 0
  FailsPlainly r w =
      (err : GoError) × (serr : SqlError) × (r ≡ ((none, some err), w))
      × (err.sql_error ≡ some serr)
      × (serr.suggestion ≡ [])

  bind-nothing :
      (fuel : ℕ) (o : Option (Reply Result × World)) (w : World)
      → ¬ ((o >>= λ r. after_suggestion cluster fuel query r) ≡ some (nothing w))
  bind-nothing fuel none w h = cc
  bind-nothing fuel (some r) w h = after_suggestion-nothing fuel r w h

  on_sql_error-nothing :
      (fuel : ℕ) (interactive : Bool) (err : GoError) (use_suggestion : Bool)
      (found : Option SqlError) (w₁ w : World)
      → on_sql_error cluster fuel interactive query none err use_suggestion found w₁
        ≡ some (nothing w)
      → (use_suggestion ≡ true)
        × (serr : SqlError) × (found ≡ some serr)
        × (serr.suggestion ≡ [])
        × (w₁ ≡ w)
  unfolding on_sql_error
  on_sql_error-nothing fuel interactive err use_suggestion none w₁ w h = cc
  on_sql_error-nothing fuel interactive err false (some serr) w₁ w h =
      elim (Bool-cases (not (equal serr.suggestion []) && not interactive)) [
        | inl hint ↦ cc (
            subst
              (λ b.
                (if b
                  then some ((none, some (with_hint cluster (adapt_sql_error cluster err))), w₁)
                  else some ((none, some (adapt_sql_error cluster err)), w₁))
                ≡ some (nothing w))
              hint h)
        | inr plain ↦ cc (
            subst
              (λ b.
                (if b
                  then some ((none, some (with_hint cluster (adapt_sql_error cluster err))), w₁)
                  else some ((none, some (adapt_sql_error cluster err)), w₁))
                ≡ some (nothing w))
              plain h)
      ]
  on_sql_error-nothing fuel interactive err true (some serr) w₁ w h =
      elim (Bool-cases (equal serr.suggestion [])) [
        | inl blank ↦ (
          refl,
          serr,
          refl,
          (equal_iff serr.suggestion []).0 blank,
          ap (λ r. r.1)
              (some-injective _ _ (
                subst
                  (λ b.
                    (if not b
                      then (exec_sql_with_retry cluster fuel serr.suggestion w₁ >>= λ r.
                          after_suggestion cluster fuel query r)
                      else some ((none, none), w₁))
                    ≡ some (nothing w))
                  blank h)),
        )
        | inr given ↦ absurd (
            bind-nothing fuel (exec_sql_with_retry cluster fuel serr.suggestion w₁) w (
              subst
                (λ b.
                  (if not b
                    then (exec_sql_with_retry cluster fuel serr.suggestion w₁ >>= λ r.
                        after_suggestion cluster fuel query r)
                    else some ((none, none), w₁))
                  ≡ some (nothing w))
                given h))
      ]

  after_first-nothing :
      (fuel : ℕ) (use_suggestion interactive : Bool) (r : Reply Result × World) (w : World)
      → OneOf cluster query r
      → after_first cluster fuel use_suggestion interactive query r ≡ some (nothing w)
      → (use_suggestion ≡ true) × FailsPlainly r w
  after_first-nothing fuel use_suggestion interactive ((none, none), w₁) w (inl o) h = cc
  after_first-nothing fuel use_suggestion interactive ((none, none), w₁) w (inr o) h = cc
  after_first-nothing fuel use_suggestion interactive ((some result, none), w₁) w o h = cc
  after_first-nothing fuel use_suggestion interactive ((some result, some err), w₁) w (inl (x, o))
        h =
      cc
  after_first-nothing fuel use_suggestion interactive ((some result, some err), w₁) w (inr (x, o))
        h =
      cc
  after_first-nothing fuel use_suggestion interactive ((none, some err), w₁) w o h =
      let (on, serr, found, blank, same) =
        on_sql_error-nothing fuel interactive err use_suggestion err.sql_error w₁ w h in
      (on, (err, serr, ap (λ v. ((none, some err), v)) same, found, blank))

  FailsPlainly-nothing :
      (fuel : ℕ) (interactive : Bool) (r : Reply Result × World) (w : World)
      → FailsPlainly r w
      → after_first cluster fuel true interactive query r ≡ some (nothing w)
  unfolding on_sql_error equal
  FailsPlainly-nothing fuel interactive r w (err, serr, at_r, found, blank) =
      ap (after_first cluster fuel true interactive query) at_r
      ∙ ap (λ f. on_sql_error cluster fuel interactive query none err true f w) found
      ∙ ap
          (λ t.
            if not (equal t [])
            then (exec_sql_with_retry cluster fuel serr.suggestion w >>= λ x.
                after_suggestion cluster fuel query x)
            else some (nothing w))
          blank

  bind-some :
      (o : Option (Reply Result × World)) (f : Reply Result × World → Option (Reply Result × World))
      (out : Reply Result × World)
      → (o >>= λ r. f r) ≡ some out
      → (r : Reply Result × World) × (o ≡ some r) × (f r ≡ some out)
  bind-some none f out h = cc
  bind-some (some r) f out h = (r, refl, h)

  -- ExecSQL returns neither a result nor an error exactly if --use-mapping-suggestion is given and
  -- the query fails with an SQL error that has no suggestion: that error is lost. (`fuel` is the
  -- number of rounds that each execution may take.)
  pub exec_sql-nothing :
      (fuel : ℕ) (use_suggestion interactive : Bool) (w w₁ : World)
      → (exec_sql cluster fuel use_suggestion interactive query w ≡ some (nothing w₁)) ↔ (
          (use_suggestion ≡ true)
          × (r : Reply Result × World) × (exec_sql_with_retry cluster fuel query w ≡ some r)
          × FailsPlainly r w₁)
  unfolding exec_sql
  exec_sql-nothing fuel use_suggestion interactive w w₁ = (
    λ h.
        let (r, e, h₁) = bind-some (exec_sql_with_retry cluster fuel query w) _ (nothing w₁) h in
        let (on, plain) =
          after_first-nothing fuel use_suggestion interactive r w₁
            (exec_sql_with_retry-OneOf cluster query fuel w r e) h₁ in
        (on, r, e, plain),
    λ f.
        let (on, r, e, plain) = f in
        rw on (
          ap (λ o. o >>= λ x. after_first cluster fuel true interactive query x) e
          ∙ FailsPlainly-nothing fuel interactive r w₁ plain),
  )

  on_sql_error-plain :
      (fuel : ℕ) (interactive : Bool) (err : GoError) (found : Option SqlError) (w : World)
      → (e : GoError) × (on_sql_error cluster fuel interactive query none err false found w
          ≡ some ((none, some e), w))
  unfolding on_sql_error
  on_sql_error-plain fuel interactive err none w = (err, refl)
  on_sql_error-plain fuel interactive err (some serr) w =
      elim (Bool-cases (not (equal serr.suggestion []) && not interactive)) [
        | inl hint ↦ (
          with_hint cluster (adapt_sql_error cluster err),
          ap
              (λ b.
                if b
                then some ((none, some (with_hint cluster (adapt_sql_error cluster err))), w)
                else some ((none, some (adapt_sql_error cluster err)), w))
              hint,
        )
        | inr quiet ↦ (
          adapt_sql_error cluster err,
          ap
              (λ b.
                if b
                then some ((none, some (with_hint cluster (adapt_sql_error cluster err))), w)
                else some ((none, some (adapt_sql_error cluster err)), w))
              quiet,
        )
      ]

  after_first-plain :
      (fuel : ℕ) (interactive : Bool) (w : World) (result : Option Result) (err : Option GoError)
      → OneOf cluster query ((result, err), w)
      → (shown : Option GoError) × (after_first cluster fuel false interactive query
            ((result, err), w)
          ≡ some ((result, shown), w))
        × ((shown ≡ none) ↔ (err ≡ none))
  after_first-plain fuel interactive w result none o = (none, refl, (λ h. h, λ h. h))
  after_first-plain fuel interactive w (some result) (some err) (inl (x, o)) = cc
  after_first-plain fuel interactive w (some result) (some err) (inr (x, o)) = cc
  after_first-plain fuel interactive w none (some err) o =
      let (e, h) = on_sql_error-plain fuel interactive err err.sql_error w in
      (some e, h, (λ k. cc, λ k. cc))

  -- Without --use-mapping-suggestion, ExecSQL executes the query alone: it returns as execSQL does,
  -- in the same state, with the same result, and with an error if and only if execSQL has one.
  pub exec_sql-plain :
      (fuel : ℕ) (interactive : Bool) (w w₁ : World) (result : Option Result) (err : Option GoError)
      → exec_sql_with_retry cluster fuel query w ≡ some ((result, err), w₁)
      → (shown : Option GoError) × (exec_sql cluster fuel false interactive query w
          ≡ some ((result, shown), w₁))
        × ((shown ≡ none) ↔ (err ≡ none))
  unfolding exec_sql
  exec_sql-plain fuel interactive w w₁ result err e =
      let (shown, h, same) =
        after_first-plain fuel interactive w₁ result err
          (exec_sql_with_retry-OneOf cluster query fuel w _ e) in
      (shown, ap (λ o. o >>= λ x. after_first cluster fuel false interactive query x) e ∙ h, same)
