-- ===== src/Tests/Binding.antt =====
-- The binder on the trees of two queries, and the theorems about it at these inputs.
use volcano_db.Base.{◌≡◌, refl, Bool, String, none, [], ◌∷◌, map}
use volcano_db.Base.Int.{pos}
use volcano_db.Outcome.{ok, column_not_found}
use volcano_db.Catalog.{Schema, int_type, varchar_type}
use volcano_db.Storage.{int, varchar, Tuple}
use volcano_db.Planner.Expr.{Expr, col_ref, const, binary_op, func_call, star, eval}
use volcano_db.Planner.Plan.{LogicalPlan}
use volcano_db.Planner.Ast.{
  SqlExpr, SqlValue, SqlBinaryOperator, FunctionArguments, FunctionArgs, FunctionArg, TableFactor,
  SelectItem, GroupByExpr, Select, SetExpr, Query,
}
use volcano_db.Planner.BindExpr.{extract_all}
use volcano_db.Planner.BindQuery.{bind_query}
use volcano_db.Planner.Aggregates.{
  Targets, aliases, Listed, AllTargets, Distinct, AllKnown, column_value, eval_calls,
  extract_all_lem, extract_all_conflates,
}
use volcano_db.Planner.Bound.{HasStates, bind_query-HasStates}
use volcano_db.Planner.Headers.{headers, bind_query-headers}
use volcano_db.Executor.Defs.{Executor}
use volcano_db.Executor.Yields.{Settles}
use volcano_db.Executor.Refinement.{run}
use volcano_db.Executor.Unsorted.{run-sort_of_failures}
use volcano_db.Handler.Defs.{context_of}
use volcano_db.Tests.Evaluate.{everything}
use volcano_db.Tests.Fixture.{whole_numbers, row, database, session, users_schema}

-- count(*) + 1 AS n
abbrev counted : SelectItem
counted =
    SelectItem.expr_with_alias
      (SqlExpr.binary SqlBinaryOperator.plus
        (SqlExpr.function "count" (
          FunctionArguments.argument_list
            (FunctionArgs.arg FunctionArg.unnamed_wildcard FunctionArgs.end)))
        (SqlExpr.value (SqlValue.number "1")))
      "n"

-- SELECT count(*) + 1 AS n FROM users
abbrev counting_select : Select
counting_select = record {
  from = record { relation = TableFactor.table "users" none; joins = [] } ∷ [];
  selection = none;
  projection = counted ∷ [];
  group_by = GroupByExpr.expressions [];
}

abbrev counting : Query
counting = record {
  body = SetExpr.select counting_select;
  order_by = none;
  limit = none;
  offset = none;
}

abbrev counting_plan : LogicalPlan
counting_plan =
    LogicalPlan.project
      (LogicalPlan.agg (LogicalPlan.scan "users" none) [] (("count", star, "count(*)") ∷ []))
      ((binary_op "+" (col_ref "count(*)") (const (int (pos 1))), "n") ∷ [])

counting_binds : bind_query counting database.catalog ≡ ok counting_plan
unfolding everything
counting_binds = refl

bind_query-HasStates_example : HasStates counting_plan
bind_query-HasStates_example =
    bind_query-HasStates counting database.catalog counting_plan counting_binds

abbrev n_schema : Schema
n_schema = record { columns = record { name = "n"; data_type = int_type } ∷ [] }

abbrev counted_target : Targets
counted_target = (binary_op "+" (func_call "count" star) (const (int (pos 1))), "n") ∷ []

bind_query-headers_example : headers n_schema ≡ "n" ∷ []
unfolding everything
bind_query-headers_example =
    bind_query-headers database.catalog counting counting_select (LogicalPlan.scan "users" none)
      counting_plan
      (record {
        columns =
            record { name = "users.id"; data_type = int_type }
            ∷ record { name = "users.name"; data_type = varchar_type }
            ∷ [];
      })
      n_schema refl refl refl refl refl

extract_all_lem_example :
    let (proj, gs) = extract_all counted_target [] in
    (aliases proj ≡ aliases counted_target)
    × ((t : Tuple) (s : Schema)
        → map (λ (x : Expr × String). eval x.0 t s) proj
          ≡ map (λ (x : Expr × String). eval_calls (column_value t s) x.0 t s) counted_target)
    × AllTargets (Listed gs) counted_target
    × Distinct gs
    × AllKnown gs
extract_all_lem_example = extract_all_lem counted_target ((refl, tt), tt)

extract_all_conflates_example :
    extract_all
      ((func_call "min" (const (varchar "name")), "a")
        ∷ (func_call "min" (col_ref "name"), "b")
        ∷ [])
      []
    ≡ (
      (col_ref "min(name)", "a") ∷ (col_ref "min(name)", "b") ∷ [],
      ("min", const (varchar "name"), "min(name)") ∷ [],
    )
unfolding everything
extract_all_conflates_example = extract_all_conflates "min" "name" "a" "b" refl

-- SELECT name FROM users ORDER BY id
run-sort_of_failures_example :
    Settles
      (λ f. run (context_of database session) f (
        Executor.sort
          (Executor.seq_scan "users" 0)
          ((col_ref "ID", Bool.true) ∷ [])
          users_schema
          []
          0))
      (ok (row 3 "c" none ∷ row 1 "a" none ∷ row 0 "z" none ∷ []))
unfolding everything
run-sort_of_failures_example =
    run-sort_of_failures (context_of database session) (Executor.seq_scan "users" 0)
      (row 3 "c" none ∷ row 1 "a" none ∷ row 0 "z" none ∷ []) [] 0 ((col_ref "ID", Bool.true) ∷ [])
      users_schema refl
      (
        ((column_not_found "ID", refl), tt),
        (((column_not_found "ID", refl), tt), (((column_not_found "ID", refl), tt), tt)),
      )
