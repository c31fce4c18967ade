-- ===== src/Planner/BindFinal.antt =====
-- The binder of src/planner.rs runs on no fuel: where the parser does not, a text binds or is refused.
use volcano_db.Base.{String, Option, none, some, List, [], ◌∷◌}
use volcano_db.Base.Int.{ℤ}
use volcano_db.Platform.{Platform}
use volcano_db.Outcome.{Outcome, ok, fail, IsFinal, bind-IsFinal, if-IsFinal, invalid_number}
use volcano_db.Text.{contains_dot, parse_i64}
use volcano_db.Catalog.{Catalog, Schema}
use volcano_db.Storage.{Value}
use volcano_db.Planner.Plan.{LogicalPlan, schema}
use volcano_db.Planner.Final.{schema-IsFinal}
use volcano_db.Planner.Ast.{
  SqlValue, SqlBinaryOperator, SqlExpr, FunctionArguments, FunctionArgs, FunctionArg, SqlDataType,
  TableFactor, ColumnDef, JoinOperator, Join, TableWithJoins, SelectItem, GroupByExpr, SetExpr,
  OrderByExpr, Query, Statement,
}
use volcano_db.Planner.BindExpr.{
  is_aggregate, bind_operator, bind_type, bind_columns, bind_number, bind_value, map_sql_expr,
  map_arguments, map_first, map_argument, map_all, map_rows, bind_table_factor,
}
use volcano_db.Planner.BindQuery.{
  bind_condition, bind_joins, bind_from, bind_where, bind_item, bind_targets, bind_group_by,
  bind_order, bind_order_by, bind_count, bind_select, bind_body, bind_query, bind_source, bind_tree,
  bind_statement,
}

bind_operator-IsFinal : (op : SqlBinaryOperator) → IsFinal (bind_operator op)
unfolding bind_operator
bind_operator-IsFinal SqlBinaryOperator.plus = tt
bind_operator-IsFinal SqlBinaryOperator.minus = tt
bind_operator-IsFinal SqlBinaryOperator.multiply = tt
bind_operator-IsFinal SqlBinaryOperator.divide = tt
bind_operator-IsFinal SqlBinaryOperator.eq = tt
bind_operator-IsFinal SqlBinaryOperator.not_eq = tt
bind_operator-IsFinal SqlBinaryOperator.gt = tt
bind_operator-IsFinal SqlBinaryOperator.gt_eq = tt
bind_operator-IsFinal SqlBinaryOperator.lt = tt
bind_operator-IsFinal SqlBinaryOperator.lt_eq = tt
bind_operator-IsFinal SqlBinaryOperator.and = tt
bind_operator-IsFinal SqlBinaryOperator.or = tt
bind_operator-IsFinal (SqlBinaryOperator.other_operator op) = tt

bind_type-IsFinal : (t : SqlDataType) → IsFinal (bind_type t)
unfolding bind_type
bind_type-IsFinal SqlDataType.int = tt
bind_type-IsFinal SqlDataType.integer = tt
bind_type-IsFinal SqlDataType.float = tt
bind_type-IsFinal SqlDataType.double = tt
bind_type-IsFinal SqlDataType.double_precision = tt
bind_type-IsFinal SqlDataType.real = tt
bind_type-IsFinal SqlDataType.varchar = tt
bind_type-IsFinal SqlDataType.text = tt
bind_type-IsFinal SqlDataType.string = tt
bind_type-IsFinal SqlDataType.boolean = tt
bind_type-IsFinal SqlDataType.bool = tt
bind_type-IsFinal (SqlDataType.other_type t) = tt

bind_columns-IsFinal : (cols : List ColumnDef) → IsFinal (bind_columns cols)
unfolding bind_columns
bind_columns-IsFinal [] = tt
bind_columns-IsFinal (col ∷ rest) =
    bind-IsFinal (bind_type col.data_type) _ (bind_type-IsFinal col.data_type)
      (λ t. bind-IsFinal (bind_columns rest) _ (bind_columns-IsFinal rest) (λ cs. tt))

module _ ⦃p : Platform⦄ where
  bind_number-IsFinal : (s : String) → IsFinal (bind_number s)
  unfolding bind_number
  bind_number-IsFinal s =
      if-IsFinal (contains_dot s) _ _ (float (p.parse_float s)) (integer (parse_i64 s))
    where
      float :
          (o : Option p.Float)
          → IsFinal (elim o as (λ _. Outcome Value) [
            | none ↦ fail (invalid_number s)
            | some f ↦ ok (Value.float f)
          ])
      float none = tt
      float (some f) = tt

      integer :
          (o : Option ℤ)
          → IsFinal (elim o as (λ _. Outcome Value) [
            | none ↦ fail (invalid_number s)
            | some i ↦ ok (Value.int i)
          ])
      integer none = tt
      integer (some i) = tt

  bind_value-IsFinal : (v : SqlValue) → IsFinal (bind_value v)
  unfolding bind_value
  bind_value-IsFinal (SqlValue.number s) = bind_number-IsFinal s
  bind_value-IsFinal (SqlValue.single_quoted_string s) = tt
  bind_value-IsFinal (SqlValue.double_quoted_string s) = tt
  bind_value-IsFinal (SqlValue.boolean b) = tt
  bind_value-IsFinal SqlValue.null = tt
  bind_value-IsFinal (SqlValue.other_value v) = tt

  mutual
    unfolding map_sql_expr

    map_sql_expr-IsFinal : (e : SqlExpr) → IsFinal (map_sql_expr e)
    map_sql_expr-IsFinal (SqlExpr.identifier name) = tt
    map_sql_expr-IsFinal (SqlExpr.compound_identifier names) = tt
    map_sql_expr-IsFinal (SqlExpr.value v) =
        bind-IsFinal (bind_value v) _ (bind_value-IsFinal v) (λ c. tt)
    map_sql_expr-IsFinal (SqlExpr.binary op left right) =
        let hl = map_sql_expr-IsFinal left in
        let hr = map_sql_expr-IsFinal right in
        bind-IsFinal (bind_operator op) _ (bind_operator-IsFinal op) (λ o.
          bind-IsFinal (map_sql_expr left) _ hl
            (λ l. bind-IsFinal (map_sql_expr right) _ hr (λ r. tt)))
    map_sql_expr-IsFinal (SqlExpr.function name args) =
        let h = map_arguments-IsFinal args in
        if-IsFinal (is_aggregate (p.to_lowercase name)) _ _
          (bind-IsFinal (map_arguments args) _ h (λ e. tt)) tt
    map_sql_expr-IsFinal (SqlExpr.other_expr e) = tt

    map_arguments-IsFinal : (args : FunctionArguments) → IsFinal (map_arguments args)
    map_arguments-IsFinal FunctionArguments.no_arguments = tt
    map_arguments-IsFinal FunctionArguments.subquery = tt
    map_arguments-IsFinal (FunctionArguments.argument_list args) = map_first-IsFinal args

    map_first-IsFinal : (args : FunctionArgs) → IsFinal (map_first args)
    map_first-IsFinal FunctionArgs.end = tt
    map_first-IsFinal (FunctionArgs.arg a rest) = map_argument-IsFinal a

    map_argument-IsFinal : (a : FunctionArg) → IsFinal (map_argument a)
    map_argument-IsFinal FunctionArg.unnamed_wildcard = tt
    map_argument-IsFinal (FunctionArg.unnamed_expr e) = map_sql_expr-IsFinal e
    map_argument-IsFinal FunctionArg.other_arg = tt

  map_all-IsFinal : (es : List SqlExpr) → IsFinal (map_all es)
  unfolding map_all
  map_all-IsFinal [] = tt
  map_all-IsFinal (e ∷ rest) =
      bind-IsFinal (map_sql_expr e) _ (map_sql_expr-IsFinal e)
        (λ x. bind-IsFinal (map_all rest) _ (map_all-IsFinal rest) (λ xs. tt))

  map_rows-IsFinal : (rows : List (List SqlExpr)) → IsFinal (map_rows rows)
  unfolding map_rows
  map_rows-IsFinal [] = tt
  map_rows-IsFinal (row ∷ rest) =
      bind-IsFinal (map_all row) _ (map_all-IsFinal row)
        (λ x. bind-IsFinal (map_rows rest) _ (map_rows-IsFinal rest) (λ xs. tt))

  bind_table_factor-IsFinal : (t : TableFactor) → IsFinal (bind_table_factor t)
  unfolding bind_table_factor
  bind_table_factor-IsFinal (TableFactor.table name alias) = tt
  bind_table_factor-IsFinal (TableFactor.other_factor t) = tt

  bind_condition-IsFinal : (j : JoinOperator) → IsFinal (bind_condition j)
  unfolding bind_condition
  bind_condition-IsFinal (JoinOperator.inner_on e) =
      bind-IsFinal (map_sql_expr e) _ (map_sql_expr-IsFinal e) (λ x. tt)
  bind_condition-IsFinal JoinOperator.cross_join = tt
  bind_condition-IsFinal (JoinOperator.other_join j) = tt

  bind_joins-IsFinal : (joins : List Join) (plan : LogicalPlan) → IsFinal (bind_joins plan joins)
  unfolding bind_joins
  bind_joins-IsFinal [] plan = tt
  bind_joins-IsFinal (j ∷ rest) plan =
      bind-IsFinal (bind_table_factor j.relation) _ (bind_table_factor-IsFinal j.relation) (λ r.
        bind-IsFinal (bind_condition j.join_operator) _ (bind_condition-IsFinal j.join_operator)
          (λ cond. bind_joins-IsFinal rest (LogicalPlan.join plan r cond)))

  bind_from-IsFinal : (from : List TableWithJoins) → IsFinal (bind_from from)
  unfolding bind_from
  bind_from-IsFinal [] = tt
  bind_from-IsFinal (t ∷ rest) =
      bind-IsFinal (bind_table_factor t.relation) _ (bind_table_factor-IsFinal t.relation)
        (λ plan. bind_joins-IsFinal t.joins plan)

  bind_where-IsFinal : (w : Option SqlExpr) (plan : LogicalPlan) → IsFinal (bind_where w plan)
  unfolding bind_where
  bind_where-IsFinal none plan = tt
  bind_where-IsFinal (some e) plan =
      bind-IsFinal (map_sql_expr e) _ (map_sql_expr-IsFinal e) (λ x. tt)

  bind_item-IsFinal : (s : Schema) (item : SelectItem) → IsFinal (bind_item s item)
  unfolding bind_item
  bind_item-IsFinal s (SelectItem.unnamed_item e) =
      bind-IsFinal (map_sql_expr e) _ (map_sql_expr-IsFinal e) (λ x. tt)
  bind_item-IsFinal s (SelectItem.expr_with_alias e alias) =
      bind-IsFinal (map_sql_expr e) _ (map_sql_expr-IsFinal e) (λ x. tt)
  bind_item-IsFinal s SelectItem.wildcard = tt
  bind_item-IsFinal s (SelectItem.other_item i) = tt

  bind_targets-IsFinal : (s : Schema) (items : List SelectItem) → IsFinal (bind_targets s items)
  unfolding bind_targets
  bind_targets-IsFinal s [] = tt
  bind_targets-IsFinal s (item ∷ rest) =
      bind-IsFinal (bind_item s item) _ (bind_item-IsFinal s item)
        (λ ts. bind-IsFinal (bind_targets s rest) _ (bind_targets-IsFinal s rest) (λ us. tt))

  bind_group_by-IsFinal : (g : GroupByExpr) → IsFinal (bind_group_by g)
  unfolding bind_group_by
  bind_group_by-IsFinal (GroupByExpr.expressions es) = map_all-IsFinal es
  bind_group_by-IsFinal GroupByExpr.all = tt

  bind_order-IsFinal : (os : List OrderByExpr) → IsFinal (bind_order os)
  unfolding bind_order
  bind_order-IsFinal [] = tt
  bind_order-IsFinal (o ∷ rest) =
      bind-IsFinal (map_sql_expr o.expr) _ (map_sql_expr-IsFinal o.expr)
        (λ e. bind-IsFinal (bind_order rest) _ (bind_order-IsFinal rest) (λ es. tt))

  bind_order_by-IsFinal :
      (o : Option (List OrderByExpr)) (plan : LogicalPlan) → IsFinal (bind_order_by o plan)
  unfolding bind_order_by
  bind_order_by-IsFinal none plan = tt
  bind_order_by-IsFinal (some []) plan = tt
  bind_order_by-IsFinal (some (o ∷ os)) plan =
      bind-IsFinal (bind_order (o ∷ os)) _ (bind_order-IsFinal (o ∷ os)) (λ es. tt)

  bind_count-IsFinal : (o : Option SqlExpr) → IsFinal (bind_count o)
  unfolding bind_count
  bind_count-IsFinal none = tt
  bind_count-IsFinal (some e) = bind-IsFinal (map_sql_expr e) _ (map_sql_expr-IsFinal e) (λ x. tt)

  bind_body-IsFinal : (b : SetExpr) (c : Catalog) → IsFinal (bind_body b c)
  unfolding bind_select
  bind_body-IsFinal (SetExpr.values rows) c = tt
  bind_body-IsFinal (SetExpr.other_body b) c = tt
  bind_body-IsFinal (SetExpr.select s) c =
      bind-IsFinal (bind_from s.from) _ (bind_from-IsFinal s.from) (λ from.
        bind-IsFinal (schema from c) _ (schema-IsFinal from c) (λ before.
          bind-IsFinal (bind_where s.selection from) _ (bind_where-IsFinal s.selection from)
            (λ plan.
              bind-IsFinal (bind_targets before s.projection) _
                (bind_targets-IsFinal before s.projection)
                (λ ts.
                  bind-IsFinal (bind_group_by s.group_by) _ (bind_group_by-IsFinal s.group_by)
                    (λ g. tt)))))

  bind_query-IsFinal : (q : Query) (c : Catalog) → IsFinal (bind_query q c)
  unfolding bind_query
  bind_query-IsFinal q c =
      bind-IsFinal (bind_body q.body c) _ (bind_body-IsFinal q.body c) (λ selected.
        bind-IsFinal (bind_order_by q.order_by selected) _
          (bind_order_by-IsFinal q.order_by selected)
          (λ plan.
            bind-IsFinal (bind_count q.limit) _ (bind_count-IsFinal q.limit)
              (λ l. bind-IsFinal (bind_count q.offset) _ (bind_count-IsFinal q.offset) (λ o. tt))))

  bind_source-IsFinal : (b : SetExpr) → IsFinal (bind_source b)
  bind_source-IsFinal (SetExpr.values rows) = map_rows-IsFinal rows
  bind_source-IsFinal (SetExpr.select s) = tt
  bind_source-IsFinal (SetExpr.other_body b) = tt

  bind_tree-IsFinal : (s : Statement) (c : Catalog) → IsFinal (bind_tree s c)
  unfolding bind_tree
  bind_tree-IsFinal (Statement.create_table name cols) c =
      bind-IsFinal (bind_columns cols) _ (bind_columns-IsFinal cols) (λ cs. tt)
  bind_tree-IsFinal (Statement.insert name none) c = tt
  bind_tree-IsFinal (Statement.insert name (some q)) c =
      bind-IsFinal (bind_source q.body) _ (bind_source-IsFinal q.body) (λ rows. tt)
  bind_tree-IsFinal (Statement.query q) c =
      bind-IsFinal (bind_query q c) _ (bind_query-IsFinal q c) (λ plan. tt)
  bind_tree-IsFinal (Statement.other_statement s) c = tt

  pub bind_statement-IsFinal :
      (parse_sql : String → Outcome (List Statement)) (sql : String) (c : Catalog)
      → IsFinal (parse_sql sql)
      → IsFinal (bind_statement parse_sql sql c)
  unfolding bind_statement
  bind_statement-IsFinal parse_sql sql c h = bind-IsFinal (parse_sql sql) _ h first
    where
      first : (ast : List Statement) → IsFinal (bind_statement (λ _. ok ast) sql c)
      first [] = tt
      first (s ∷ rest) = bind_tree-IsFinal s c
