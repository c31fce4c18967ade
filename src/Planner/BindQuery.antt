-- ===== src/Planner/BindQuery.antt =====
-- src/planner.rs, fourth part: `bind_query` and `bind_statement`. The parser of the sqlparser crate
-- is a parameter.
use volcano_db.Base.{
  ℕ, Bool, true, String, Option, none, some, List, [], ◌∷◌, ◌++◌, map, ◌||◌, not, any, is_empty,
  if◌then◌else◌,
}
use volcano_db.Base.Int.{as_usize}
use volcano_db.Platform.{Platform}
use volcano_db.Outcome.{
  Outcome, ok, fail, ◌>>=◌, empty_query, missing_source, only_values, unsupported_statement,
  unsupported_body, unsupported_join, unsupported_item, group_by_all,
}
use volcano_db.Catalog.{Column, Schema, Catalog}
use volcano_db.Storage.{Value}
use volcano_db.Planner.Expr.{Expr, col_ref, const, get_expr_name}
use volcano_db.Planner.Plan.{LogicalPlan, schema, unwrap_or}
use volcano_db.Planner.Ast.{
  SqlExpr, JoinOperator, Join, TableWithJoins, SelectItem, GroupByExpr, Select, SetExpr,
  OrderByExpr, Query, Statement,
}
use volcano_db.Planner.BindExpr.{
  bind_columns, SqlStatement, map_sql_expr, map_all, map_rows, bind_table_factor, has_agg_funcs,
  extract_all,
}

module _ ⦃p : Platform⦄ where
  unfoldable pub bind_condition : JoinOperator → Outcome (Option Expr)
  bind_condition (JoinOperator.inner_on e) = map_sql_expr e >>= λ x. ok (some x)
  bind_condition JoinOperator.cross_join = ok none
  bind_condition (JoinOperator.other_join j) = fail (unsupported_join j)

  -- The loop over `joins`.
  unfoldable pub bind_joins : LogicalPlan → List Join → Outcome LogicalPlan
  unfolding bind_condition
  bind_joins curr_plan [] = ok curr_plan
  bind_joins curr_plan (join ∷ rest) = do
    right_plan ← bind_table_factor join.relation
    cond ← bind_condition join.join_operator
    bind_joins (LogicalPlan.join curr_plan right_plan cond) rest

  -- 1. FROM: of the list only the first table and its joins are looked at.
  unfoldable pub bind_from : List TableWithJoins → Outcome LogicalPlan
  unfolding bind_joins
  bind_from [] = ok LogicalPlan.dummy_scan
  bind_from (table ∷ rest) = do plan ← bind_table_factor table.relation; bind_joins plan table.joins

  -- 2. WHERE
  unfoldable pub bind_where : Option SqlExpr → LogicalPlan → Outcome LogicalPlan
  bind_where none plan = ok plan
  bind_where (some e) plan = map_sql_expr e >>= λ predicate. ok (LogicalPlan.filter plan predicate)

  unfoldable pub bind_item : Schema → SelectItem → Outcome (List (Expr × String))
  bind_item s (SelectItem.unnamed_item e) =
      map_sql_expr e >>= λ mapped. ok ((mapped, get_expr_name mapped) ∷ [])
  bind_item s (SelectItem.expr_with_alias e alias) =
      map_sql_expr e >>= λ mapped. ok ((mapped, alias) ∷ [])
  bind_item s SelectItem.wildcard = ok (map (λ (c : Column). (col_ref c.name, c.name)) s.columns)
  bind_item s (SelectItem.other_item i) = fail (unsupported_item i)

  -- 3. the target list
  unfoldable pub bind_targets : Schema → List SelectItem → Outcome (List (Expr × String))
  unfolding bind_item
  bind_targets s [] = ok []
  bind_targets s (item ∷ rest) = do ts ← bind_item s item; us ← bind_targets s rest; ok (ts ++ us)

  -- 4. GROUP BY
  unfoldable pub bind_group_by : GroupByExpr → Outcome (List Expr)
  bind_group_by (GroupByExpr.expressions es) = map_all es
  bind_group_by GroupByExpr.all = fail group_by_all

  abbrev pub any_aggregate : List (Expr × String) → Bool
  any_aggregate targets = any (λ t. has_agg_funcs t.0) targets

  -- The projection, over an aggregation where there is one.
  unfoldable pub bind_projection : LogicalPlan → List Expr → List (Expr × String) → LogicalPlan
  bind_projection plan group_by targets =
      if not (is_empty group_by) || any_aggregate targets
      then (let (proj, agg_funcs) = extract_all targets [] in
          LogicalPlan.project (LogicalPlan.agg plan group_by agg_funcs) proj)
      else LogicalPlan.project plan targets

  unfoldable pub bind_order : List OrderByExpr → Outcome (List (Expr × Bool))
  bind_order [] = ok []
  bind_order (o ∷ rest) = do
    e ← map_sql_expr o.expr
    es ← bind_order rest
    ok ((e, unwrap_or o.asc true) ∷ es)

  -- 5. ORDER BY
  unfoldable pub bind_order_by : Option (List OrderByExpr) → LogicalPlan → Outcome LogicalPlan
  unfolding bind_order
  bind_order_by none plan = ok plan
  bind_order_by (some []) plan = ok plan
  bind_order_by (some (o ∷ os)) plan =
      bind_order (o ∷ os) >>= λ order_by. ok (LogicalPlan.sort plan order_by)

  -- `if let Expr::Const(Value::Int(i)) = mapped`: any other expression counts as none.
  abbrev pub const_usize : Expr → Option ℕ
  const_usize (const (Value.int i)) = some (as_usize i)
  const_usize _ = none

  unfoldable pub bind_count : Option SqlExpr → Outcome (Option ℕ)
  bind_count none = ok none
  bind_count (some e) = map_sql_expr e >>= λ mapped. ok (const_usize mapped)

  -- 6. LIMIT and OFFSET
  abbrev pub bind_limit : Option ℕ → Option ℕ → LogicalPlan → LogicalPlan
  bind_limit none none plan = plan
  bind_limit l o plan = LogicalPlan.limit plan l o

  unfoldable pub bind_select : Select → Catalog → Outcome LogicalPlan
  unfolding bind_from bind_where bind_targets bind_group_by bind_projection
  bind_select s catalog = do
    from ← bind_from s.from
    before ← schema from catalog
    plan ← bind_where s.selection from
    targets ← bind_targets before s.projection
    group_by ← bind_group_by s.group_by
    ok (bind_projection plan group_by targets)

  abbrev pub bind_body : SetExpr → Catalog → Outcome LogicalPlan
  bind_body (SetExpr.select s) catalog = bind_select s catalog
  bind_body (SetExpr.values rows) catalog = fail (unsupported_body "VALUES")
  bind_body (SetExpr.other_body b) catalog = fail (unsupported_body b)

  unfoldable pub bind_query : Query → Catalog → Outcome LogicalPlan
  unfolding bind_select bind_order_by bind_count
  bind_query q catalog = do
    selected ← bind_body q.body catalog
    plan ← bind_order_by q.order_by selected
    l ← bind_count q.limit
    o ← bind_count q.offset
    ok (bind_limit l o plan)

  abbrev pub bind_source : SetExpr → Outcome (List (List Expr))
  bind_source (SetExpr.values rows) = map_rows rows
  bind_source _ = fail only_values

  unfoldable pub bind_tree : Statement → Catalog → Outcome SqlStatement
  unfolding bind_query
  bind_tree (Statement.create_table name cols) catalog =
      bind_columns cols >>= λ cs. ok (SqlStatement.create_table name (record { columns = cs }))
  bind_tree (Statement.insert name none) catalog = fail missing_source
  bind_tree (Statement.insert name (some q)) catalog =
      bind_source q.body >>= λ rows. ok (SqlStatement.insert name rows)
  bind_tree (Statement.query q) catalog =
      bind_query q catalog >>= λ plan. ok (SqlStatement.query plan)
  bind_tree (Statement.other_statement s) catalog = fail (unsupported_statement s)

  module _ (parse_sql : String → Outcome (List Statement)) where
    -- bind_statement: of the statements of a text only the first is looked at.
    unfoldable pub bind_statement : String → Catalog → Outcome SqlStatement
    unfolding bind_tree
    bind_statement sql catalog = parse_sql sql >>= λ ast. first ast
      where
        first : List Statement → Outcome SqlStatement
        first [] = fail empty_query
        first (statement ∷ rest) = bind_tree statement catalog
