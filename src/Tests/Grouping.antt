-- ===== src/Tests/Grouping.antt =====
-- Groups and joins on the fixture, and the theorems about them at these inputs.
use volcano_db.Base.{◌≡◌, refl, Bool, string_eq, Option, none, some, List, [], ◌∷◌}
use volcano_db.HashMap
use volcano_db.Outcome.{Outcome, ok, stop}
use volcano_db.Catalog.{Schema, int_type, varchar_type}
use volcano_db.Storage.{Value, Tuple}
use volcano_db.Planner.Expr.{Expr, col_ref, binary_op, star}
use volcano_db.Planner.Plan.{AggFunc}
use volcano_db.Executor.Agg.{Groups, no_groups, agg_row}
use volcano_db.Executor.Flow.{flow_of, fold_flow, combine}
use volcano_db.Executor.Grouping.{Holds, agg_rows_by_key}
use volcano_db.Executor.Defs.{Executor}
use volcano_db.Executor.Yields.{Settles}
use volcano_db.Executor.Refinement.{run}
use volcano_db.Executor.Joins.{run-join}
use volcano_db.Handler.Defs.{context_of}
use volcano_db.Tests.Evaluate.{everything}
use volcano_db.Tests.Fixture.{whole_numbers, row, database, session, users_schema}

-- SELECT count(*) FROM users GROUP BY name
abbrev by_name : List Expr
by_name = col_ref "name" ∷ []

abbrev counts : List AggFunc
counts = ("count", star, "count(*)") ∷ []

abbrev namesakes : List Tuple
namesakes = row 1 "a" none ∷ row 2 "b" none ∷ row 3 "a" none ∷ []

abbrev grouped : Outcome Groups → Groups
grouped (ok g) = g
grouped (stop x) = no_groups

abbrev names : Groups
unfolding everything
names = grouped (fold_flow (agg_row by_name counts users_schema) no_groups (flow_of namesakes))

agg_rows_by_key_example :
    Holds by_name counts users_schema
      (HashMap.get names.groups "s:a")
      (row 1 "a" none ∷ row 3 "a" none ∷ [])
unfolding everything
agg_rows_by_key_example = agg_rows_by_key by_name counts users_schema namesakes names refl "s:a"

-- SELECT * FROM users JOIN users AS v ON users.id < v.id
abbrev pair_schema : Schema
pair_schema = record {
  columns =
      record { name = "users.id"; data_type = int_type }
      ∷ record { name = "users.name"; data_type = varchar_type }
      ∷ record { name = "v.id"; data_type = int_type }
      ∷ record { name = "v.name"; data_type = varchar_type }
      ∷ [];
}

abbrev smaller : Option Expr
smaller = some (binary_op "<" (col_ref "users.id") (col_ref "v.id"))

abbrev visible : List Tuple
visible = row 3 "c" none ∷ row 1 "a" none ∷ row 0 "z" none ∷ []

less : (v : Value) × (ok (Value.bool Bool.true) ≡ ok v)
less = (Value.bool Bool.true, refl)

no_less : (v : Value) × (ok (Value.bool Bool.false) ≡ ok v)
no_less = (Value.bool Bool.false, refl)

run-join_example :
    Settles
      (λ f. run (context_of database session) f (
        Executor.nested_loop_join
          (Executor.seq_scan "users" 0)
          (Executor.seq_scan "users" 0)
          smaller
          pair_schema
          []
          none
          0))
      (ok (
        combine (row 1 "a" none) (row 3 "c" none)
        ∷ combine (row 0 "z" none) (row 3 "c" none)
        ∷ combine (row 0 "z" none) (row 1 "a" none)
        ∷ []))
unfolding everything
run-join_example =
    run-join smaller pair_schema (context_of database session) (Executor.seq_scan "users" 0)
      (Executor.seq_scan "users" 0) visible visible [] none 0 refl refl
      (no_less, (no_less, (no_less, (less, (no_less, (no_less, (less, (less, (no_less, tt)))))))))
