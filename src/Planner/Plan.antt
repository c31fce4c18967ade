-- ===== src/Planner/Plan.antt =====
-- src/planner.rs, second part: `LogicalPlan` and `LogicalPlan::schema`.
use volcano_db.Base.{
  ℕ, Bool, String, Option, none, some, List, [], ◌∷◌, ◌++◌, map, ◌==◌, string_eq, ◌||◌,
  if◌then◌else◌,
}
use volcano_db.Platform.{Platform}
use volcano_db.Outcome.{Outcome, ok, fail, ◌>>=◌, unsupported_aggregate, table_not_in_catalog}
use volcano_db.Text.{◌^^◌, contains_dot}
use volcano_db.Catalog.{DataType, int_type, Column, Schema, Catalog, get_schema}
use volcano_db.Planner.Expr.{Expr, get_expr_type, get_expr_name, sum_type}

module _ ⦃p : Platform⦄ where
  -- (func_name, arg_expr, generated_name)
  abbrev pub AggFunc : Type 0
  AggFunc = String × Expr × String

  pub data LogicalPlan : Type 0 where
    dummy_scan : LogicalPlan
    scan : String → Option String → LogicalPlan
    filter : LogicalPlan → Expr → LogicalPlan
    project : LogicalPlan → List (Expr × String) → LogicalPlan
    limit : LogicalPlan → Option ℕ → Option ℕ → LogicalPlan
    sort : LogicalPlan → List (Expr × Bool) → LogicalPlan
    join : LogicalPlan → LogicalPlan → Option Expr → LogicalPlan
    agg : LogicalPlan → List Expr → List AggFunc → LogicalPlan

  abbrev pub column : String → DataType → Column
  column n t = record { name = n; data_type = t }

  -- A column as a scan names it: with the alias, or else the table, in front.
  unfoldable pub qualify : String → Column → Column
  qualify q col = record col {
    name = if contains_dot col.name then col.name else q ^^ ("." ^^ col.name);
  }

  abbrev pub unwrap_or {ℓ} : {A : Type ℓ} → Option A → A → A
  unwrap_or none d = d
  unwrap_or (some a) d = a

  unfoldable pub scan_schema : String → Option String → Option Schema → Outcome Schema
  unfolding qualify
  scan_schema table alias none = fail (table_not_in_catalog table)
  scan_schema table alias (some s) =
      ok (record { columns = map (qualify (unwrap_or alias table)) s.columns })

  unfoldable pub project_columns : List (Expr × String) → Schema → Outcome (List Column)
  project_columns [] s = ok []
  project_columns ((e, alias) ∷ rest) s = do
    t ← get_expr_type e s
    cs ← project_columns rest s
    ok (column alias t ∷ cs)

  unfoldable pub group_columns : List Expr → Schema → Outcome (List Column)
  group_columns [] s = ok []
  group_columns (e ∷ rest) s = do
    t ← get_expr_type e s
    cs ← group_columns rest s
    ok (column (get_expr_name e) t ∷ cs)

  unfoldable pub agg_type : String → Expr → Schema → Outcome DataType
  agg_type func arg s =
      if func == "count"
      then ok int_type
      else if func == "sum" || func == "avg"
      then (get_expr_type arg s >>= sum_type func)
      else if func == "min" || func == "max"
      then get_expr_type arg s
      else fail (unsupported_aggregate func)

  unfoldable pub agg_columns : List AggFunc → Schema → Outcome (List Column)
  unfolding agg_type
  agg_columns [] s = ok []
  agg_columns ((func, arg, alias) ∷ rest) s = do
    t ← agg_type func arg s
    cs ← agg_columns rest s
    ok (column alias t ∷ cs)

  -- LogicalPlan::schema
  unfoldable pub schema : LogicalPlan → Catalog → Outcome Schema
  unfolding scan_schema project_columns group_columns agg_columns
  schema dummy_scan c = ok (record { columns = [] })
  schema (scan table alias) c = scan_schema table alias (get_schema c table)
  schema (filter child pred) c = schema child c
  schema (limit child l o) c = schema child c
  schema (sort child order_by) c = schema child c
  schema (project child exprs) c = do
    s ← schema child c
    cs ← project_columns exprs s
    ok (record { columns = cs })
  schema (join left right cond) c = do
    l ← schema left c
    r ← schema right c
    ok (record { columns = l.columns ++ r.columns })
  schema (agg child group_by agg_funcs) c = do
    s ← schema child c
    gs ← group_columns group_by s
    fs ← agg_columns agg_funcs s
    ok (record { columns = gs ++ fs })
