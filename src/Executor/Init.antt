-- ===== src/Executor/Init.antt =====
-- `init` and `close` of the operators of src/executor.rs. What `init` has changed before an error is
-- not kept: a tree that failed is not asked again.
use volcano_db.Base.{ℕ, Bool, false, Option, none, List, [], string_eq}
use volcano_db.HashMap.{keys}
use volcano_db.Platform.{Platform}
use volcano_db.Outcome.{Outcome, ok, ◌>>=◌}
use volcano_db.Catalog.{Schema}
use volcano_db.Planner.Expr.{Expr}
use volcano_db.Planner.Plan.{AggFunc}
use volcano_db.Executor.Agg.{no_groups, agg_row, agg_finish}
use volcano_db.Executor.Order.{compare_rows, sort_by}
use volcano_db.Executor.Defs.{
  ExecutionContext, Executor, dummy_scan, seq_scan, filter, project, limit, sort, nested_loop_join,
  hash_agg, next, while_next, push,
}

module _ ⦃p : Platform⦄ where
  -- `init` of a sort whose child is initialised
  abbrev pub sort_init :
      ℕ → ExecutionContext → Executor → List (Expr × Bool) → Schema → Outcome Executor
  sort_init fuel ctx child order_by s = do
    (rows, child') ← while_next fuel ctx push [] child
    sorted ← sort_by (compare_rows order_by s) rows
    ok (sort child' order_by s sorted 0)

  -- `init` of a join whose children are initialised
  abbrev pub join_init :
      ℕ → ExecutionContext → Executor → Executor → Option Expr → Schema → Outcome Executor
  join_init fuel ctx left right cond s = do
    (rows, right') ← while_next fuel ctx push [] right
    (l, left') ← next fuel ctx left
    ok (nested_loop_join left' right' cond s rows l 0)

  -- `init` of an aggregation whose child is initialised
  abbrev pub agg_init :
      ℕ → ExecutionContext → Executor → List Expr → List AggFunc → Schema → Outcome Executor
  agg_init fuel ctx child group_by funcs s = do
    (g, child') ← while_next fuel ctx (agg_row group_by funcs s) no_groups child
    g' ← agg_finish group_by funcs g
    ok (hash_agg child' group_by funcs s g' (p.hash_order (keys g'.groups)) 0)

  -- Executor::init
  unfoldable pub init : ℕ → ExecutionContext → Executor → Outcome Executor
  init fuel ctx (dummy_scan done) = ok (dummy_scan false)
  init fuel ctx (seq_scan name cursor) = ok (seq_scan name 0)
  init fuel ctx (filter child pred s) = do child' ← init fuel ctx child; ok (filter child' pred s)
  init fuel ctx (project child exprs s) = do
    child' ← init fuel ctx child
    ok (project child' exprs s)
  init fuel ctx (limit child l o cursor) = do child' ← init fuel ctx child; ok (limit child' l o 0)
  init fuel ctx (sort child order_by s rows cursor) = do
    child' ← init fuel ctx child
    sort_init fuel ctx child' order_by s
  init fuel ctx (nested_loop_join left right cond s rows l cursor) = do
    left' ← init fuel ctx left
    right' ← init fuel ctx right
    join_init fuel ctx left' right' cond s
  init fuel ctx (hash_agg child group_by funcs s g ks cursor) = do
    child' ← init fuel ctx child
    agg_init fuel ctx child' group_by funcs s

  -- Executor::close
  unfoldable pub close : Executor → Executor
  close (dummy_scan done) = dummy_scan done
  close (seq_scan name cursor) = seq_scan name cursor
  close (filter child pred s) = filter (close child) pred s
  close (project child exprs s) = project (close child) exprs s
  close (limit child l o cursor) = limit (close child) l o cursor
  close (sort child order_by s rows cursor) = sort (close child) order_by s [] cursor
  close (nested_loop_join left right cond s rows l cursor) =
      nested_loop_join (close left) (close right) cond s [] none cursor
  close (hash_agg child group_by funcs s g ks cursor) =
      hash_agg (close child) group_by funcs s no_groups [] cursor
