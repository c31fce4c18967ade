-- ===== src/Planner/BindExpr.antt =====
-- src/planner.rs, third part: `map_sql_expr`, column types, FROM tables, and the rewriting of the
-- aggregates in a target list.
use volcano_db.Base.{
  Bool, String, none, some, List, [], ◌∷◌, ◌++◌, ◌==◌, string_eq, ◌||◌, any, if◌then◌else◌,
}
use volcano_db.Platform.{Platform}
use volcano_db.Outcome.{
  Outcome, ok, fail, ◌>>=◌, unsupported_datatype, invalid_number, unsupported_literal,
  unsupported_function, subquery_argument, unsupported_argument, unsupported_expression,
  unsupported_factor, unsupported_operator,
}
use volcano_db.Text.{◌^^◌, join, contains_dot, parse_i64}
use volcano_db.Catalog.{DataType, int_type, float_type, varchar_type, bool_type, Column, Schema}
use volcano_db.Storage.{Value}
use volcano_db.Planner.Expr.{Expr, col_ref, const, binary_op, func_call, star, get_expr_name}
use volcano_db.Planner.Plan.{AggFunc, LogicalPlan}
use volcano_db.Planner.Ast.{
  SqlValue, SqlBinaryOperator, SqlExpr, FunctionArguments, FunctionArgs, FunctionArg, SqlDataType,
  TableFactor, ColumnDef,
}

-- The functions that the binder lets through.
abbrev pub is_aggregate : String → Bool
is_aggregate name =
    name == "count" || name == "sum" || name == "avg" || name == "min" || name == "max"

unfoldable pub bind_operator : SqlBinaryOperator → Outcome String
bind_operator SqlBinaryOperator.plus = ok "+"
bind_operator SqlBinaryOperator.minus = ok "-"
bind_operator SqlBinaryOperator.multiply = ok "*"
bind_operator SqlBinaryOperator.divide = ok "/"
bind_operator SqlBinaryOperator.eq = ok "="
bind_operator SqlBinaryOperator.not_eq = ok "!="
bind_operator SqlBinaryOperator.gt = ok ">"
bind_operator SqlBinaryOperator.gt_eq = ok ">="
bind_operator SqlBinaryOperator.lt = ok "<"
bind_operator SqlBinaryOperator.lt_eq = ok "<="
bind_operator SqlBinaryOperator.and = ok "and"
bind_operator SqlBinaryOperator.or = ok "or"
bind_operator (SqlBinaryOperator.other_operator op) = fail (unsupported_operator op)

unfoldable pub bind_type : SqlDataType → Outcome DataType
bind_type SqlDataType.int = ok int_type
bind_type SqlDataType.integer = ok int_type
bind_type SqlDataType.float = ok float_type
bind_type SqlDataType.double = ok float_type
bind_type SqlDataType.double_precision = ok float_type
bind_type SqlDataType.real = ok float_type
bind_type SqlDataType.varchar = ok varchar_type
bind_type SqlDataType.text = ok varchar_type
bind_type SqlDataType.string = ok varchar_type
bind_type SqlDataType.boolean = ok bool_type
bind_type SqlDataType.bool = ok bool_type
bind_type (SqlDataType.other_type t) = fail (unsupported_datatype t)

-- The column definitions of CREATE TABLE.
unfoldable pub bind_columns : List ColumnDef → Outcome (List Column)
unfolding bind_type
bind_columns [] = ok []
bind_columns (col ∷ rest) = do
  t ← bind_type col.data_type
  cs ← bind_columns rest
  ok (record { name = col.name; data_type = t } ∷ cs)

module _ ⦃p : Platform⦄ where
  pub data SqlStatement : Type 0 where
    create_table : String → Schema → SqlStatement
    insert : String → List (List Expr) → SqlStatement
    query : LogicalPlan → SqlStatement

  -- `num_str.parse()`, to a float where there is a dot
  unfoldable pub bind_number : String → Outcome Value
  bind_number num_str =
      if contains_dot num_str
      then elim (p.parse_float num_str) [
        | none ↦ fail (invalid_number num_str)
        | some f ↦ ok (Value.float f)
      ]
      else elim (parse_i64 num_str) [
        | none ↦ fail (invalid_number num_str)
        | some i ↦ ok (Value.int i)
      ]

  unfoldable pub bind_value : SqlValue → Outcome Value
  unfolding bind_number
  bind_value (SqlValue.number s) = bind_number s
  bind_value (SqlValue.single_quoted_string s) = ok (Value.varchar s)
  bind_value (SqlValue.double_quoted_string s) = ok (Value.varchar s)
  bind_value (SqlValue.boolean b) = ok (Value.bool b)
  bind_value SqlValue.null = ok Value.null
  bind_value (SqlValue.other_value v) = fail (unsupported_literal v)

  -- map_sql_expr: of a function's arguments only the first is looked at.
  unfoldable mutual
    unfolding bind_value bind_operator

    pub map_sql_expr : SqlExpr → Outcome Expr
    map_sql_expr (SqlExpr.identifier name) = ok (col_ref name)
    map_sql_expr (SqlExpr.compound_identifier names) = ok (col_ref (join "." names))
    map_sql_expr (SqlExpr.value v) = bind_value v >>= λ c. ok (const c)
    map_sql_expr (SqlExpr.binary op left right) = do
      op_str ← bind_operator op
      l ← map_sql_expr left
      r ← map_sql_expr right
      ok (binary_op op_str l r)
    map_sql_expr (SqlExpr.function name args) =
        let func_name = p.to_lowercase name in
        let bound = map_arguments args in
        if is_aggregate func_name
        then (bound >>= λ e. ok (func_call func_name e))
        else fail (unsupported_function func_name)
    map_sql_expr (SqlExpr.other_expr e) = fail (unsupported_expression e)

    pub map_arguments : FunctionArguments → Outcome Expr
    map_arguments FunctionArguments.no_arguments = ok star
    map_arguments FunctionArguments.subquery = fail subquery_argument
    map_arguments (FunctionArguments.argument_list args) = map_first args

    pub map_first : FunctionArgs → Outcome Expr
    map_first FunctionArgs.end = ok star
    map_first (FunctionArgs.arg a rest) = map_argument a

    pub map_argument : FunctionArg → Outcome Expr
    map_argument FunctionArg.unnamed_wildcard = ok star
    map_argument (FunctionArg.unnamed_expr e) = map_sql_expr e
    map_argument FunctionArg.other_arg = fail unsupported_argument

  unfoldable pub map_all : List SqlExpr → Outcome (List Expr)
  map_all [] = ok []
  map_all (e ∷ rest) = do x ← map_sql_expr e; xs ← map_all rest; ok (x ∷ xs)

  unfoldable pub map_rows : List (List SqlExpr) → Outcome (List (List Expr))
  unfolding map_all
  map_rows [] = ok []
  map_rows (row ∷ rest) = do x ← map_all row; xs ← map_rows rest; ok (x ∷ xs)

  unfoldable pub bind_table_factor : TableFactor → Outcome LogicalPlan
  bind_table_factor (TableFactor.table name alias) = ok (LogicalPlan.scan name alias)
  bind_table_factor (TableFactor.other_factor t) = fail (unsupported_factor t)

  unfoldable pub has_agg_funcs : Expr → Bool
  has_agg_funcs (func_call name arg) = is_aggregate name
  has_agg_funcs (binary_op op left right) = has_agg_funcs left || has_agg_funcs right
  has_agg_funcs _ = Bool.false

  -- An aggregate is pushed unless one of its name is there.
  unfoldable pub add_aggregate : String → Expr → List AggFunc → Expr × List AggFunc
  add_aggregate name arg agg_funcs =
      let gen_name = name ^^ ("(" ^^ (get_expr_name arg ^^ ")")) in
      (
        col_ref gen_name,
        if any (λ f. f.2 == gen_name) agg_funcs
            then agg_funcs
            else agg_funcs ++ ((name, arg, gen_name) ∷ []),
      )

  unfoldable pub extract_aggregates : Expr → List AggFunc → Expr × List AggFunc
  unfolding add_aggregate
  extract_aggregates (func_call name arg) agg_funcs =
      if is_aggregate name
      then add_aggregate name arg agg_funcs
      else (func_call name arg, agg_funcs)
  extract_aggregates (binary_op op left right) agg_funcs =
      let (new_left, fs) = extract_aggregates left agg_funcs in
      let (new_right, gs) = extract_aggregates right fs in (binary_op op new_left new_right, gs)
  extract_aggregates e agg_funcs = (e, agg_funcs)

  -- The loop over `target_exprs`.
  unfoldable pub extract_all :
      List (Expr × String) → List AggFunc → List (Expr × String) × List AggFunc
  unfolding extract_aggregates
  extract_all [] agg_funcs = ([], agg_funcs)
  extract_all ((e, alias) ∷ rest) agg_funcs =
      let (rewritten, fs) = extract_aggregates e agg_funcs in
      let (proj, gs) = extract_all rest fs in ((rewritten, alias) ∷ proj, gs)
