-- ===== src/Planner/Final.antt =====
-- The functions of src/planner.rs that queries call run on no fuel: an expression has a value or an
-- error, and so have its type and the schema of a plan.
use volcano_db.Base.{
  ℕ, String, Option, none, some, List, [], ◌∷◌, ◌==◌, string_eq, ◌||◌, ◌&&◌, get_elem?,
}
use volcano_db.Base.Int.{ℤ, pos, negsuc, eq_ℤ}
use volcano_db.Platform.{Platform}
use volcano_db.Outcome.{
  Outcome, ok, stop, panic, index_out_of_bounds, fail, IsFinal, bind-IsFinal, if-IsFinal,
  column_not_found,
}
use volcano_db.Catalog.{
  Catalog, Column, DataType, int_type, float_type, varchar_type, bool_type, Schema, find_col_idx,
  get_schema,
}
use volcano_db.Storage.{Value, int, float, Tuple}
use volcano_db.Planner.Expr.{
  Expr, const, col_ref, binary_op, func_call, star, eval, eval_binary_op, eval_add, eval_sub,
  eval_mul, eval_div, div_int, index, arithmetic_type, operator_type, is_comparison, is_arithmetic,
  sum_type, column_type, get_expr_type,
}
use volcano_db.Planner.Plan.{
  LogicalPlan, AggFunc, scan_schema, project_columns, group_columns, agg_type, agg_columns, schema,
}

module _ ⦃p : Platform⦄ where
  div_int-IsFinal : (a b : ℤ) → IsFinal (div_int a b)
  unfolding div_int
  div_int-IsFinal a b =
      if-IsFinal (eq_ℤ b (pos 0)) _ _ tt
        (if-IsFinal (eq_ℤ a (negsuc 9223372036854775807) && eq_ℤ b (negsuc 0)) _ _ tt tt)

  eval_add-IsFinal : (l r : Value) → IsFinal (eval_add l r)
  unfolding eval_add
  eval_add-IsFinal (int a) (int b) = tt
  eval_add-IsFinal (float a) (float b) = tt
  eval_add-IsFinal (int a) (float b) = tt
  eval_add-IsFinal (float a) (int b) = tt
  eval_add-IsFinal _ _ = tt

  eval_sub-IsFinal : (l r : Value) → IsFinal (eval_sub l r)
  unfolding eval_sub
  eval_sub-IsFinal (int a) (int b) = tt
  eval_sub-IsFinal (float a) (float b) = tt
  eval_sub-IsFinal (int a) (float b) = tt
  eval_sub-IsFinal (float a) (int b) = tt
  eval_sub-IsFinal _ _ = tt

  eval_mul-IsFinal : (l r : Value) → IsFinal (eval_mul l r)
  unfolding eval_mul
  eval_mul-IsFinal (int a) (int b) = tt
  eval_mul-IsFinal (float a) (float b) = tt
  eval_mul-IsFinal (int a) (float b) = tt
  eval_mul-IsFinal (float a) (int b) = tt
  eval_mul-IsFinal _ _ = tt

  eval_div-IsFinal : (l r : Value) → IsFinal (eval_div l r)
  unfolding eval_div
  eval_div-IsFinal (int a) (int b) = div_int-IsFinal a b
  eval_div-IsFinal (float a) (float b) = tt
  eval_div-IsFinal (int a) (float b) = tt
  eval_div-IsFinal (float a) (int b) = tt
  eval_div-IsFinal _ _ = tt

  eval_binary_op-IsFinal : (op : String) (l r : Value) → IsFinal (eval_binary_op op l r)
  unfolding eval_binary_op
  eval_binary_op-IsFinal op l r = if-IsFinal (op == "=" || op == "==") _ _ tt (
      if-IsFinal (op == "!=" || op == "<>") _ _ tt (
        if-IsFinal (op == ">") _ _ tt (
          if-IsFinal (op == ">=") _ _ tt (
            if-IsFinal (op == "<") _ _ tt (
              if-IsFinal (op == "<=") _ _ tt (
                if-IsFinal (op == "+") _ _ (eval_add-IsFinal l r) (
                  if-IsFinal (op == "-") _ _ (eval_sub-IsFinal l r) (
                    if-IsFinal (op == "*") _ _ (eval_mul-IsFinal l r) (
                      if-IsFinal (op == "/") _ _ (eval_div-IsFinal l r) (
                        if-IsFinal (op == "and") _ _ tt
                          (if-IsFinal (op == "or") _ _ tt tt)))))))))))

  index-IsFinal : (vs : List Value) (i : ℕ) → IsFinal (index vs i)
  index-IsFinal vs i = found (get_elem? vs i)
    where
      found :
          (o : Option Value)
          → IsFinal (elim o as (λ _. Outcome Value) [
            | none ↦ stop (panic index_out_of_bounds)
            | some v ↦ ok v
          ])
      found none = tt
      found (some v) = tt

  pub eval-IsFinal : (e : Expr) (t : Tuple) (s : Schema) → IsFinal (eval e t s)
  unfolding eval
  eval-IsFinal star t s = tt
  eval-IsFinal (const v) t s = tt
  eval-IsFinal (func_call name arg) t s = tt
  eval-IsFinal (col_ref name) t s = found (find_col_idx s name)
    where
      found :
          (o : Option ℕ)
          → IsFinal (elim o as (λ _. Outcome Value) [
            | none ↦ fail (column_not_found name)
            | some i ↦ index t.values i
          ])
      found none = tt
      found (some i) = index-IsFinal t.values i
  eval-IsFinal (binary_op op left right) t s =
      bind-IsFinal (eval left t s) _ (eval-IsFinal left t s) (λ l.
        bind-IsFinal (eval right t s) _ (eval-IsFinal right t s)
          (λ r. eval_binary_op-IsFinal op l r))

  arithmetic_type-IsFinal : (l r : DataType) → IsFinal (arithmetic_type l r)
  unfolding arithmetic_type
  arithmetic_type-IsFinal float_type r = tt
  arithmetic_type-IsFinal int_type float_type = tt
  arithmetic_type-IsFinal int_type int_type = tt
  arithmetic_type-IsFinal int_type varchar_type = tt
  arithmetic_type-IsFinal int_type bool_type = tt
  arithmetic_type-IsFinal varchar_type float_type = tt
  arithmetic_type-IsFinal varchar_type _ = tt
  arithmetic_type-IsFinal bool_type float_type = tt
  arithmetic_type-IsFinal bool_type _ = tt

  operator_type-IsFinal : (op : String) (l r : DataType) → IsFinal (operator_type op l r)
  unfolding operator_type
  operator_type-IsFinal op l r =
      if-IsFinal (is_comparison op) _ _ tt
        (if-IsFinal (is_arithmetic op) _ _ (arithmetic_type-IsFinal l r) tt)

  sum_type-IsFinal : (name : String) (t : DataType) → IsFinal (sum_type name t)
  unfolding sum_type
  sum_type-IsFinal name int_type = if-IsFinal (name == "avg") _ _ tt tt
  sum_type-IsFinal name float_type = tt
  sum_type-IsFinal name varchar_type = tt
  sum_type-IsFinal name bool_type = tt

  column_type-IsFinal : (s : Schema) (name : String) → IsFinal (column_type s name)
  column_type-IsFinal s name = found (find_col_idx s name)
    where
      typed :
          (o : Option Column)
          → IsFinal (elim o as (λ _. Outcome DataType) [
            | none ↦ stop (panic index_out_of_bounds)
            | some c ↦ ok c.data_type
          ])
      typed none = tt
      typed (some c) = tt

      found :
          (o : Option ℕ)
          → IsFinal (elim o as (λ _. Outcome DataType) [
            | none ↦ fail (column_not_found name)
            | some i ↦ elim (get_elem? s.columns i) [
              | none ↦ stop (panic index_out_of_bounds)
              | some c ↦ ok c.data_type
            ]
          ])
      found none = tt
      found (some i) = typed (get_elem? s.columns i)

  get_expr_type-IsFinal : (e : Expr) (s : Schema) → IsFinal (get_expr_type e s)
  unfolding get_expr_type
  get_expr_type-IsFinal (const v) s = tt
  get_expr_type-IsFinal (col_ref name) s = column_type-IsFinal s name
  get_expr_type-IsFinal star s = tt
  get_expr_type-IsFinal (binary_op op left right) s =
      bind-IsFinal (get_expr_type left s) _ (get_expr_type-IsFinal left s) (λ l.
        bind-IsFinal (get_expr_type right s) _ (get_expr_type-IsFinal right s)
          (λ r. operator_type-IsFinal op l r))
  get_expr_type-IsFinal (func_call name arg) s =
      let h = get_expr_type-IsFinal arg s in
      if-IsFinal (name == "count") _ _ tt (
        if-IsFinal (name == "sum" || name == "avg") _ _
          (bind-IsFinal (get_expr_type arg s) (sum_type name) h (sum_type-IsFinal name))
          (if-IsFinal (name == "min" || name == "max") _ _ h tt))

  scan_schema-IsFinal :
      (table : String) (alias : Option String) (o : Option Schema)
      → IsFinal (scan_schema table alias o)
  unfolding scan_schema
  scan_schema-IsFinal table alias none = tt
  scan_schema-IsFinal table alias (some s) = tt

  project_columns-IsFinal :
      (es : List (Expr × String)) (s : Schema) → IsFinal (project_columns es s)
  unfolding project_columns
  project_columns-IsFinal [] s = tt
  project_columns-IsFinal ((e, alias) ∷ rest) s =
      bind-IsFinal (get_expr_type e s) _ (get_expr_type-IsFinal e s)
        (λ t. bind-IsFinal (project_columns rest s) _ (project_columns-IsFinal rest s) (λ cs. tt))

  group_columns-IsFinal : (es : List Expr) (s : Schema) → IsFinal (group_columns es s)
  unfolding group_columns
  group_columns-IsFinal [] s = tt
  group_columns-IsFinal (e ∷ rest) s =
      bind-IsFinal (get_expr_type e s) _ (get_expr_type-IsFinal e s)
        (λ t. bind-IsFinal (group_columns rest s) _ (group_columns-IsFinal rest s) (λ cs. tt))

  agg_type-IsFinal : (func : String) (arg : Expr) (s : Schema) → IsFinal (agg_type func arg s)
  unfolding agg_type
  agg_type-IsFinal func arg s =
      let h = get_expr_type-IsFinal arg s in
      if-IsFinal (func == "count") _ _ tt (
        if-IsFinal (func == "sum" || func == "avg") _ _
          (bind-IsFinal (get_expr_type arg s) (sum_type func) h (sum_type-IsFinal func))
          (if-IsFinal (func == "min" || func == "max") _ _ h tt))

  agg_columns-IsFinal : (fs : List AggFunc) (s : Schema) → IsFinal (agg_columns fs s)
  unfolding agg_columns
  agg_columns-IsFinal [] s = tt
  agg_columns-IsFinal ((func, arg, alias) ∷ rest) s =
      bind-IsFinal (agg_type func arg s) _ (agg_type-IsFinal func arg s)
        (λ t. bind-IsFinal (agg_columns rest s) _ (agg_columns-IsFinal rest s) (λ cs. tt))

  pub schema-IsFinal : (plan : LogicalPlan) (c : Catalog) → IsFinal (schema plan c)
  unfolding schema
  schema-IsFinal LogicalPlan.dummy_scan c = tt
  schema-IsFinal (LogicalPlan.scan table alias) c =
      scan_schema-IsFinal table alias (get_schema c table)
  schema-IsFinal (LogicalPlan.filter child pred) c = schema-IsFinal child c
  schema-IsFinal (LogicalPlan.limit child l o) c = schema-IsFinal child c
  schema-IsFinal (LogicalPlan.sort child order_by) c = schema-IsFinal child c
  schema-IsFinal (LogicalPlan.project child es) c =
      bind-IsFinal (schema child c) _ (schema-IsFinal child c)
        (λ s. bind-IsFinal (project_columns es s) _ (project_columns-IsFinal es s) (λ cs. tt))
  schema-IsFinal (LogicalPlan.join left right cond) c =
      bind-IsFinal (schema left c) _ (schema-IsFinal left c)
        (λ l. bind-IsFinal (schema right c) _ (schema-IsFinal right c) (λ r. tt))
  schema-IsFinal (LogicalPlan.agg child group_by funcs) c =
      bind-IsFinal (schema child c) _ (schema-IsFinal child c) (λ s.
        bind-IsFinal (group_columns group_by s) _ (group_columns-IsFinal group_by s)
          (λ gs. bind-IsFinal (agg_columns funcs s) _ (agg_columns-IsFinal funcs s) (λ fs. tt)))
