-- ===== src/Executor/Flow.antt =====
-- What an operator tree means, with no cursor and no fuel: the rows that it yields in order, and how
-- it ends. `meaning` is the specification that `init` and `next` of src/executor.rs are held to.
use volcano_db.Base.{
  ℕ, zero, suc, String, Option, none, some, List, [], ◌∷◌, ◌++◌, string_eq, filter as keep_if,
  if◌then◌else◌,
}
use volcano_db.HashMap
use volcano_db.HashMap.{keys}
use volcano_db.Platform.{Platform}
use volcano_db.Outcome.{Stop, err, Outcome, ok, stop, ◌>>=◌, table_not_in_storage}
use volcano_db.Catalog.{Schema}
use volcano_db.Storage.{Value, Tuple, plain_tuple, is_truthy}
use volcano_db.Planner.Expr.{Expr, eval}
use volcano_db.Planner.Plan.{unwrap_or}
use volcano_db.Executor.Agg.{Groups, no_groups, agg_row, agg_finish, eval_all}
use volcano_db.Executor.Order.{compare_rows, sort_by}
use volcano_db.Executor.Defs.{
  ExecutionContext, Executor, dummy_scan, seq_scan, filter, project, limit, sort, nested_loop_join,
  hash_agg, sees, group_row,
}

module _ ⦃p : Platform⦄ where
  pub data Flow : Type 0 where
    end : Flow
    stuck : Stop → Flow
    emit : Tuple → Flow → Flow

  abbrev pub flow_of : List Tuple → Flow
  flow_of [] = end
  flow_of (t ∷ ts) = emit t (flow_of ts)

  abbrev pub keep_row : Outcome Value → Tuple → Flow → Flow
  keep_row (ok v) t rest = if is_truthy v then emit t rest else rest
  keep_row (stop e) t rest = stuck e

  -- WHERE
  abbrev pub filter_flow : Expr → Schema → Flow → Flow
  filter_flow pred s end = end
  filter_flow pred s (stuck e) = stuck e
  filter_flow pred s (emit t fl) = keep_row (eval pred t s) t (filter_flow pred s fl)

  abbrev pub emit_values : Outcome (List Value) → Flow → Flow
  emit_values (ok vs) rest = emit (plain_tuple vs) rest
  emit_values (stop e) rest = stuck e

  -- the target list
  abbrev pub project_flow : List Expr → Schema → Flow → Flow
  project_flow es s end = end
  project_flow es s (stuck e) = stuck e
  project_flow es s (emit t fl) = emit_values (eval_all es t s) (project_flow es s fl)

  -- LIMIT: what comes after the last row is never asked for, a failure included.
  abbrev pub take_flow : Option ℕ → Flow → Flow
  take_flow none fl = fl
  take_flow (some zero) fl = end
  take_flow (some (suc n)) end = end
  take_flow (some (suc n)) (stuck e) = stuck e
  take_flow (some (suc n)) (emit t fl) = emit t (take_flow (some n) fl)

  -- OFFSET and LIMIT: the rows before the offset are asked for even where the limit is 0.
  abbrev pub limit_flow : Option ℕ → ℕ → Flow → Flow
  limit_flow l zero fl = take_flow l fl
  limit_flow l (suc d) end = end
  limit_flow l (suc d) (stuck e) = stuck e
  limit_flow l (suc d) (emit t fl) = limit_flow l d fl

  abbrev pub combine : Tuple → Tuple → Tuple
  combine l r = plain_tuple (l.values ++ r.values)

  abbrev pub join_keep : Option Expr → Schema → Tuple → Flow → Flow
  join_keep none s row rest = emit row rest
  join_keep (some cond) s row rest = keep_row (eval cond row s) row rest

  -- one left row against the right rows, and then the rest
  abbrev pub join_row : Option Expr → Schema → Tuple → List Tuple → Flow → Flow
  join_row cond s l [] rest = rest
  join_row cond s l (r ∷ rs) rest = join_keep cond s (combine l r) (join_row cond s l rs rest)

  abbrev pub join_flow : Option Expr → Schema → List Tuple → Flow → Flow
  join_flow cond s rows end = end
  join_flow cond s rows (stuck e) = stuck e
  join_flow cond s rows (emit l fl) = join_row cond s l rows (join_flow cond s rows fl)

  abbrev pub emit_outcome : Outcome Tuple → Flow → Flow
  emit_outcome (ok t) rest = emit t rest
  emit_outcome (stop e) rest = stuck e

  -- one row for each group
  abbrev pub group_flow : Groups → List String → Flow
  group_flow g [] = end
  group_flow g (k ∷ ks) = emit_outcome (group_row g k) (group_flow g ks)

  -- all rows, or the failure at the end of the flow
  abbrev pub collect : Flow → Outcome (List Tuple)
  collect end = ok []
  collect (stuck e) = stop e
  collect (emit t fl) = collect fl >>= λ ts. ok (t ∷ ts)

  abbrev pub fold_flow : {S : Type 0} → (S → Tuple → Outcome S) → S → Flow → Outcome S
  fold_flow body s end = ok s
  fold_flow body s (stuck e) = stop e
  fold_flow body s (emit t fl) = body s t >>= λ s'. fold_flow body s' fl

  -- A join asks its left child for the first row before it is asked for any.
  abbrev pub first_row : Flow → Flow → Outcome Flow
  first_row (stuck e) fl = stop e
  first_row _ fl = ok fl

  unfoldable pub meaning : ExecutionContext → Executor → Outcome Flow
  meaning ctx (dummy_scan done) = ok (emit (plain_tuple []) end)
  meaning ctx (seq_scan name cursor) = elim (HashMap.get ctx.tables name) [
    | none ↦ ok (stuck (err (table_not_in_storage name)))
    | some rows ↦ ok (flow_of (keep_if (sees ctx) rows))
  ]
  meaning ctx (filter child pred s) = do fl ← meaning ctx child; ok (filter_flow pred s fl)
  meaning ctx (project child es s) = do fl ← meaning ctx child; ok (project_flow es s fl)
  meaning ctx (limit child l o cursor) = do
    fl ← meaning ctx child
    ok (limit_flow l (unwrap_or o 0) fl)
  meaning ctx (sort child order_by s rows cursor) = do
    fl ← meaning ctx child
    ts ← collect fl
    ts' ← sort_by (compare_rows order_by s) ts
    ok (flow_of ts')
  meaning ctx (nested_loop_join left right cond s rows l cursor) = do
    lf ← meaning ctx left
    rf ← meaning ctx right
    ts ← collect rf
    first_row lf (join_flow cond s ts lf)
  meaning ctx (hash_agg child group_by funcs s g ks cursor) = do
    fl ← meaning ctx child
    g' ← fold_flow (agg_row group_by funcs s) no_groups fl
    g'' ← agg_finish group_by funcs g'
    ok (group_flow g'' (p.hash_order (keys g''.groups)))
