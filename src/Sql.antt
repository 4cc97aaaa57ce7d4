-- ===== src/Sql.antt =====
-- clc/sql/sql.go: `ExecSQL` and `execSQL`. The cluster, the clock and the context are a state `World`
-- with the calls that the code makes on it, which the hazelcast-go-client module and Go's context
-- package provide; `errorf` is fmt.Errorf with no arguments.
pub mod Retry
pub mod Suggestion
mod Tests
use hazelcast_commandline_cl.Prelude.{
  ℕ, zero, suc, Bool, true, false, Option, some, none, List, [], ◌∷◌, ◌++◌, Text, codes, equal,
  ◌>>=◌, if◌then◌else◌, not, ◌&&◌, ◌⊎◌, inl, inr,
}

-- The fields of sql.Error that the code reads.
pub record SqlError : Type 0 where
  pub message : Text
  pub suggestion : Text

-- What the code asks of an error: `Error()`, `errors.Is(err, hzerrors.ErrIO)` and
-- `errors.As(err, &serr)`.
pub record GoError : Type 0 where
  pub text : Text
  pub is_io : Bool
  pub sql_error : Option SqlError

-- `(sql.Result, error)`, nil being `none`.
abbrev pub Reply : Type 0 → Type 0
Reply Result = Option Result × Option GoError

pub record Cluster (World Result : Type 0) : Type 0 where
  -- ec.ClientInternal, which may connect
  pub client : World → Option GoError × World
  pub context_err : World → Option GoError
  pub execute : Text → World → (Result ⊎ GoError) × World
  pub sleep : World → World
  pub errorf : Text → Text

module _ {World Result : Type 0} (cluster : Cluster World Result) where
  -- What the loop does with the reply; `again` is its next round.
  abbrev pub after_execute :
      (World → Option (Reply Result × World))
      → (Result ⊎ GoError) × World
      → Option (Reply Result × World)
  after_execute again (inl result, w) = some ((some result, none), w)
  after_execute again (inr e, w) =
      if e.is_io then again (cluster.sleep w) else some ((none, some e), w)

  abbrev pub after_context :
      (World → Option (Reply Result × World))
      → Text
      → World
      → Option GoError
      → Option (Reply Result × World)
  after_context again query w (some e) = some ((none, some e), w)
  after_context again query w none = after_execute again (cluster.execute query w)

  -- The loop of `execSQL`; `none` if it does not return within the fuel.
  unfoldable pub exec_loop : ℕ → Text → World → Option (Reply Result × World)
  exec_loop zero query w = none
  exec_loop (suc fuel) query w =
      after_context (exec_loop fuel query) query w (cluster.context_err w)

  abbrev pub after_client : ℕ → Text → Option GoError × World → Option (Reply Result × World)
  after_client fuel query (some e, w) = some ((none, some e), w)
  after_client fuel query (none, w) = exec_loop fuel query w

  -- execSQL
  unfoldable pub exec_sql_with_retry : ℕ → Text → World → Option (Reply Result × World)
  exec_sql_with_retry fuel query w = after_client fuel query (cluster.client w)

  -- `fmt.Errorf(serr.Message)`: the error in it is gone.
  abbrev pub adapt_sql_error : GoError → GoError
  adapt_sql_error err = elim err.sql_error [
    | none ↦ err
    | some serr ↦ record { text = cluster.errorf serr.message; is_io = false; sql_error = none }
  ]

  abbrev pub with_hint : GoError → GoError
  with_hint err = record {
    text =
        err.text
        ++ (10 ∷ 10 ∷ codes "Use --use-mapping-suggestion to automatically apply the suggestion");
    is_io = err.is_io;
    sql_error = err.sql_error;
  }

  abbrev pub after_suggestion : ℕ → Text → Reply Result × World → Option (Reply Result × World)
  after_suggestion fuel query ((suggested, some e), w) = some ((none, some e), w)
  after_suggestion fuel query ((suggested, none), w) = exec_sql_with_retry fuel query w

  -- `ExecSQL` after a failed execution: with what `errors.As` finds, and with
  -- --use-mapping-suggestion as the Boolean in front of it.
  unfoldable pub on_sql_error :
      ℕ
      → Bool
      → Text
      → Option Result
      → GoError
      → Bool
      → Option SqlError
      → World
      → Option (Reply Result × World)
  on_sql_error fuel interactive query result err use_suggestion none w = some ((none, some err), w)
  on_sql_error fuel interactive query result err false (some serr) w =
      if not (equal serr.suggestion []) && not interactive
      then some ((none, some (with_hint (adapt_sql_error err))), w)
      else some ((none, some (adapt_sql_error err)), w)
  on_sql_error fuel interactive query result err true (some serr) w =
      if not (equal serr.suggestion [])
      then (exec_sql_with_retry fuel serr.suggestion w >>= λ r. after_suggestion fuel query r)
      else some ((result, none), w)

  abbrev pub after_first :
      ℕ → Bool → Bool → Text → Reply Result × World → Option (Reply Result × World)
  after_first fuel use_suggestion interactive query ((result, none), w) = some ((result, none), w)
  after_first fuel use_suggestion interactive query ((result, some err), w) =
      on_sql_error fuel interactive query result err use_suggestion err.sql_error w

  -- ExecSQL
  unfoldable pub exec_sql : ℕ → Bool → Bool → Text → World → Option (Reply Result × World)
  exec_sql fuel use_suggestion interactive query w =
      exec_sql_with_retry fuel query w >>= λ r. after_first fuel use_suggestion interactive query r
