-- ===== src/Sql/Tests.antt =====
-- The theorems on ExecSQL at a cluster that cannot be reached at first, and then rejects the query.
use hazelcast_commandline_cl.Prelude.{
  ℕ, zero, suc, ◌≤◌, ◌≡◌, ◌↔◌, refl, true, false, Option, some, none, Text, codes, inr, equal, [],
}
use hazelcast_commandline_cl.Sql.{
  GoError, Reply, Cluster, exec_loop, exec_sql_with_retry, exec_sql, on_sql_error,
}
use hazelcast_commandline_cl.Sql.Retry.{
  Settles, exec_sql_with_retry-Settles, OneOf, exec_sql_with_retry-OneOf,
}
use hazelcast_commandline_cl.Sql.Suggestion.{
  nothing, FailsPlainly, exec_sql-nothing, exec_sql-plain,
}

abbrev io_error : GoError
io_error = record { text = codes "i/o error"; is_io = true; sql_error = none }

abbrev rejection : GoError
rejection = record {
  text = codes "decoding SQL execute response: no such column";
  is_io = false;
  sql_error = some (record { message = codes "no such column"; suggestion = [] });
}

-- The world counts the executions.
abbrev cluster : Cluster ℕ Text
cluster = record {
  client = λ w. (none, w);
  context_err = λ w. none;
  execute = λ query w. elim w [ zero ↦ (inr io_error, 1) | suc n ↦ (inr rejection, suc (suc n)) ];
  sleep = λ w. w;
  errorf = λ text. text;
}

abbrev query : Text
query = codes "select nope from m"

rejected : exec_sql_with_retry cluster 5 query 0 ≡ some ((none, some rejection), 2)
unfolding exec_sql_with_retry exec_loop
rejected = refl

exec_sql_with_retry-Settles_example :
    (exec_sql_with_retry cluster 5 query 0 ≡ some ((none, some rejection), 2))
    ↔ ((n : ℕ) × (n ≤ 5) × Settles cluster query 0 n ((none, some rejection), 2))
exec_sql_with_retry-Settles_example =
    exec_sql_with_retry-Settles cluster query 5 0 0 ((none, some rejection), 2) refl

exec_sql_with_retry-OneOf_example : OneOf cluster query ((none, some rejection), 2)
exec_sql_with_retry-OneOf_example =
    exec_sql_with_retry-OneOf cluster query 5 0 ((none, some rejection), 2) rejected

-- The rejection is lost.
lost : exec_sql cluster 5 true false query 0 ≡ some (nothing cluster query 2)
unfolding exec_sql exec_sql_with_retry exec_loop on_sql_error equal
lost = refl

exec_sql-nothing_example :
    (exec_sql cluster 5 true false query 0 ≡ some (nothing cluster query 2)) ↔ (
      (true ≡ true)
      × (r : Reply Text × ℕ) × (exec_sql_with_retry cluster 5 query 0 ≡ some r)
      × FailsPlainly cluster query r 2)
exec_sql-nothing_example = exec_sql-nothing cluster query 5 true false 0 2

exec_sql-plain_example :
    (shown : Option GoError) × (exec_sql cluster 5 false false query 0 ≡ some ((none, shown), 2))
    × ((shown ≡ none) ↔ (some rejection ≡ none))
exec_sql-plain_example = exec_sql-plain cluster query 5 false 0 2 none (some rejection) rejected
