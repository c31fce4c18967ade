-- ===== src/Planner/Expr.antt =====
-- src/planner.rs, first part: `Expr`, `Expr::eval`, `eval_binary_op`, `get_expr_type` and
-- `get_expr_name`. Integer arithmetic is that of a release build: it wraps at 64 bits, and only the
-- quotient that does not fit panics.
use volcano_db.Base.{
  ℕ, Bool, String, none, some, List, ◌==◌, string_eq, ◌&&◌, ◌||◌, not, get_elem?, if◌then◌else◌,
}
use volcano_db.Base.Int.{ℤ, pos, negsuc, ◌+ℤ◌, ◌-ℤ◌, ◌*ℤ◌, div_trunc, eq_ℤ, wrap_i64}
use volcano_db.Platform.{Platform}
use volcano_db.Outcome.{
  Outcome, ok, stop, fail, panic, ◌>>=◌, star_not_evaluable, star_has_no_type,
  arithmetic_not_numeric, column_not_found, aggregate_outside, invalid_types, division_by_zero,
  unsupported_operator, cannot_aggregate, unsupported_aggregate, index_out_of_bounds,
  division_overflow,
}
use volcano_db.Text.{◌^^◌}
use volcano_db.Storage.{
  Value, null, int, float, varchar, bool, Tuple, is_truthy, show_value, eq_value, cmp_value,
  is_some_lt, is_some_gt, is_some_eq,
}
use volcano_db.Catalog.{
  DataType, int_type, float_type, varchar_type, bool_type, Schema, find_col_idx,
}

module _ ⦃p : Platform⦄ where
  pub data Expr : Type 0 where
    col_ref : String → Expr
    const : Value → Expr
    binary_op : String → Expr → Expr → Expr
    func_call : String → Expr → Expr
    star : Expr

  unfoldable pub get_expr_name : Expr → String
  unfolding show_value
  get_expr_name (const v) = show_value v
  get_expr_name (col_ref name) = name
  get_expr_name (binary_op op l r) =
      "(" ^^ (get_expr_name l ^^ (" " ^^ (op ^^ (" " ^^ (get_expr_name r ^^ ")")))))
  get_expr_name (func_call name arg) = name ^^ ("(" ^^ (get_expr_name arg ^^ ")"))
  get_expr_name star = "*"

  -- `a / b` on `i64`: an error at 0, and a panic where the quotient does not fit.
  unfoldable pub div_int : ℤ → ℤ → Outcome Value
  div_int a b =
      if eq_ℤ b (pos 0)
      then fail division_by_zero
      else if eq_ℤ a (negsuc 9223372036854775807) && eq_ℤ b (negsuc 0)
      then stop (panic division_overflow)
      else ok (int (div_trunc a b))

  unfoldable pub eval_add : Value → Value → Outcome Value
  eval_add (int a) (int b) = ok (int (wrap_i64 (a +ℤ b)))
  eval_add (float a) (float b) = ok (float (p.add a b))
  eval_add (int a) (float b) = ok (float (p.add (p.of_i64 a) b))
  eval_add (float a) (int b) = ok (float (p.add a (p.of_i64 b)))
  eval_add _ _ = fail (invalid_types "+")

  unfoldable pub eval_sub : Value → Value → Outcome Value
  eval_sub (int a) (int b) = ok (int (wrap_i64 (a -ℤ b)))
  eval_sub (float a) (float b) = ok (float (p.sub a b))
  eval_sub (int a) (float b) = ok (float (p.sub (p.of_i64 a) b))
  eval_sub (float a) (int b) = ok (float (p.sub a (p.of_i64 b)))
  eval_sub _ _ = fail (invalid_types "-")

  unfoldable pub eval_mul : Value → Value → Outcome Value
  eval_mul (int a) (int b) = ok (int (wrap_i64 (a *ℤ b)))
  eval_mul (float a) (float b) = ok (float (p.mul a b))
  eval_mul (int a) (float b) = ok (float (p.mul (p.of_i64 a) b))
  eval_mul (float a) (int b) = ok (float (p.mul a (p.of_i64 b)))
  eval_mul _ _ = fail (invalid_types "*")

  unfoldable pub eval_div : Value → Value → Outcome Value
  unfolding div_int
  eval_div (int a) (int b) = div_int a b
  eval_div (float a) (float b) = ok (float (p.div a b))
  eval_div (int a) (float b) = ok (float (p.div (p.of_i64 a) b))
  eval_div (float a) (int b) = ok (float (p.div a (p.of_i64 b)))
  eval_div _ _ = fail (invalid_types "/")

  unfoldable pub eval_binary_op : String → Value → Value → Outcome Value
  unfolding eval_add eval_sub eval_mul eval_div
  eval_binary_op op l r =
      if op == "=" || op == "=="
      then ok (bool (eq_value l r))
      else if op == "!=" || op == "<>"
      then ok (bool (not (eq_value l r)))
      else if op == ">"
      then ok (bool (is_some_gt (cmp_value l r)))
      else if op == ">="
      then ok (bool (is_some_gt (cmp_value l r) || is_some_eq (cmp_value l r)))
      else if op == "<"
      then ok (bool (is_some_lt (cmp_value l r)))
      else if op == "<="
      then ok (bool (is_some_lt (cmp_value l r) || is_some_eq (cmp_value l r)))
      else if op == "+"
      then eval_add l r
      else if op == "-"
      then eval_sub l r
      else if op == "*"
      then eval_mul l r
      else if op == "/"
      then eval_div l r
      else if op == "and"
      then ok (bool (is_truthy l && is_truthy r))
      else if op == "or"
      then ok (bool (is_truthy l || is_truthy r))
      else fail (unsupported_operator op)

  -- `tuple.values[idx].clone()`
  abbrev pub index : List Value → ℕ → Outcome Value
  index vs i = elim (get_elem? vs i) [ none ↦ stop (panic index_out_of_bounds) | some v ↦ ok v ]

  abbrev pub lookup_column : Schema → String → List Value → Outcome Value
  lookup_column s name vs = elim (find_col_idx s name) [
    | none ↦ fail (column_not_found name)
    | some i ↦ index vs i
  ]

  -- Expr::eval
  unfoldable pub eval : Expr → Tuple → Schema → Outcome Value
  eval star t s = fail star_not_evaluable
  eval (const v) t s = ok v
  eval (col_ref name) t s = lookup_column s name t.values
  eval (binary_op op left right) t s = do
    l ← eval left t s
    r ← eval right t s
    eval_binary_op op l r
  eval (func_call name arg) t s = fail (aggregate_outside name (get_expr_name arg))

  abbrev pub type_of_value : Value → DataType
  type_of_value (int _) = int_type
  type_of_value (float _) = float_type
  type_of_value (varchar _) = varchar_type
  type_of_value (bool _) = bool_type
  type_of_value null = varchar_type

  unfoldable pub arithmetic_type : DataType → DataType → Outcome DataType
  arithmetic_type float_type _ = ok float_type
  arithmetic_type _ float_type = ok float_type
  arithmetic_type int_type int_type = ok int_type
  arithmetic_type _ _ = fail arithmetic_not_numeric

  abbrev pub is_comparison : String → Bool
  is_comparison op =
      op == "="
      || op == "=="
      || op == "!="
      || op == "<>"
      || op == ">"
      || op == ">="
      || op == "<"
      || op == "<="
      || op == "and"
      || op == "or"

  abbrev pub is_arithmetic : String → Bool
  is_arithmetic op = op == "+" || op == "-" || op == "*" || op == "/"

  unfoldable pub operator_type : String → DataType → DataType → Outcome DataType
  unfolding arithmetic_type
  operator_type op l r =
      if is_comparison op
      then ok bool_type
      else if is_arithmetic op
      then arithmetic_type l r
      else fail (unsupported_operator op)

  -- The type of "sum" and "avg" over an argument's type.
  unfoldable pub sum_type : String → DataType → Outcome DataType
  sum_type name int_type = if name == "avg" then ok float_type else ok int_type
  sum_type name float_type = ok float_type
  sum_type name _ = fail cannot_aggregate

  abbrev pub column_type : Schema → String → Outcome DataType
  column_type s name = elim (find_col_idx s name) [
    | none ↦ fail (column_not_found name)
    | some i ↦ elim (get_elem? s.columns i) [
      | none ↦ stop (panic index_out_of_bounds)
      | some c ↦ ok c.data_type
    ]
  ]

  unfoldable pub get_expr_type : Expr → Schema → Outcome DataType
  unfolding operator_type sum_type
  get_expr_type (const v) s = ok (type_of_value v)
  get_expr_type (col_ref name) s = column_type s name
  get_expr_type (binary_op op left right) s = do
    l ← get_expr_type left s
    r ← get_expr_type right s
    operator_type op l r
  get_expr_type (func_call name arg) s =
      let arg_type = get_expr_type arg s in
      if name == "count"
      then ok int_type
      else if name == "sum" || name == "avg"
      then (arg_type >>= sum_type name)
      else if name == "min" || name == "max"
      then arg_type
      else fail (unsupported_aggregate name)
  get_expr_type star s = fail star_has_no_type
