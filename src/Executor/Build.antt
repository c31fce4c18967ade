-- ===== src/Executor/Build.antt =====
-- src/executor.rs: `build_executor`.
use volcano_db.Base.{false, none, map, []}
use volcano_db.Platform.{Platform}
use volcano_db.Outcome.{Outcome, ok, ◌>>=◌}
use volcano_db.Catalog.{Catalog}
use volcano_db.Planner.Plan.{LogicalPlan, schema}
use volcano_db.Executor.Agg.{no_groups}
use volcano_db.Executor.Defs.{Executor}

module _ ⦃p : Platform⦄ where
  unfoldable pub build_executor : LogicalPlan → Catalog → Outcome Executor
  build_executor LogicalPlan.dummy_scan c = ok (Executor.dummy_scan false)
  build_executor (LogicalPlan.scan table alias) c = ok (Executor.seq_scan table 0)
  build_executor (LogicalPlan.filter child pred) c = do
    ex ← build_executor child c
    s ← schema child c
    ok (Executor.filter ex pred s)
  build_executor (LogicalPlan.project child exprs) c = do
    ex ← build_executor child c
    s ← schema child c
    ok (Executor.project ex (map (λ e. e.0) exprs) s)
  build_executor (LogicalPlan.limit child l o) c = do
    ex ← build_executor child c
    ok (Executor.limit ex l o 0)
  build_executor (LogicalPlan.sort child order_by) c = do
    ex ← build_executor child c
    s ← schema child c
    ok (Executor.sort ex order_by s [] 0)
  build_executor (LogicalPlan.join left right cond) c = do
    l ← build_executor left c
    r ← build_executor right c
    s ← schema (LogicalPlan.join left right cond) c
    ok (Executor.nested_loop_join l r cond s [] none 0)
  build_executor (LogicalPlan.agg child group_by funcs) c = do
    ex ← build_executor child c
    s ← schema child c
    ok (Executor.hash_agg ex group_by funcs s no_groups [] 0)
