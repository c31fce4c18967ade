-- ===== src/Executor/Agg.antt =====
-- src/executor.rs: `AggState`, `make_group_key` and one row of the aggregation loop.
use volcano_db.Base.{
  Bool, true, false, String, none, some, List, [], ◌∷◌, map, ◌==◌, string_eq, ◌&&◌, not, is_empty,
  if◌then◌else◌,
}
use volcano_db.Base.Int.{ℤ, pos, ◌+ℤ◌, eq_ℤ, wrap_i64}
use volcano_db.HashMap
use volcano_db.HashMap.{HashMap}
use volcano_db.Platform.{Platform}
use volcano_db.Outcome.{Outcome, ok, stop, panic, ◌>>=◌, unknown_aggregate, index_out_of_bounds}
use volcano_db.Text.{◌^^◌, show_i64, join}
use volcano_db.Catalog.{Schema}
use volcano_db.Storage.{
  Value, null, int, float, varchar, bool, show_bool, Tuple, eq_value, cmp_value, is_some_lt,
  is_some_gt,
}
use volcano_db.Planner.Expr.{Expr, star, eval}
use volcano_db.Planner.Plan.{AggFunc}

module _ ⦃p : Platform⦄ where
  pub data AggState : Type 0 where
    count : ℤ → AggState
    sum : Value → AggState
    avg : Value → ℤ → AggState
    minimum : Value → AggState
    maximum : Value → AggState

  -- AggState::new
  unfoldable pub new_state : String → Outcome AggState
  new_state func =
      if func == "count"
      then ok (count (pos 0))
      else if func == "sum"
      then ok (sum null)
      else if func == "avg"
      then ok (avg null (pos 0))
      else if func == "min"
      then ok (minimum null)
      else if func == "max"
      then ok (maximum null)
      else stop (panic unknown_aggregate)

  -- The inner `match sum` of the Sum and Avg arms.
  unfoldable pub add_to_sum : Value → Value → Value
  add_to_sum null val = val
  add_to_sum (int s) (int v) = int (wrap_i64 (s +ℤ v))
  add_to_sum (int s) (float v) = float (p.add (p.of_i64 s) v)
  add_to_sum (float s) (float v) = float (p.add s v)
  add_to_sum (float s) (int v) = float (p.add s (p.of_i64 v))
  add_to_sum s _ = s

  unfoldable pub min_of : Value → Value → Value
  min_of null val = val
  min_of m val = if is_some_lt (cmp_value val m) then val else m

  unfoldable pub max_of : Value → Value → Value
  max_of null val = val
  max_of m val = if is_some_gt (cmp_value val m) then val else m

  -- AggState::update, for a value that is not NULL
  unfoldable pub absorb : AggState → Value → AggState
  unfolding add_to_sum min_of max_of
  absorb (count n) val = count (wrap_i64 (n +ℤ pos 1))
  absorb (sum s) val = sum (add_to_sum s val)
  absorb (avg s n) val = avg (add_to_sum s val) (wrap_i64 (n +ℤ pos 1))
  absorb (minimum m) val = minimum (min_of m val)
  absorb (maximum m) val = maximum (max_of m val)

  -- AggState::update: every arm tests `val != &Value::Null` first.
  unfoldable pub update : AggState → Value → AggState
  unfolding absorb
  update st val = if not (eq_value val null) then absorb st val else st

  unfoldable pub average : Value → ℤ → Value
  average (int s) n = float (p.div (p.of_i64 s) (p.of_i64 n))
  average (float s) n = float (p.div s (p.of_i64 n))
  average _ n = null

  -- AggState::finalize
  unfoldable pub finalize : AggState → Value
  unfolding average
  finalize (count n) = int n
  finalize (sum s) = s
  finalize (avg s n) = if eq_ℤ n (pos 0) then null else average s n
  finalize (minimum m) = m
  finalize (maximum m) = m

  unfoldable pub key_part : Value → String
  key_part null = "null"
  key_part (int i) = "i:" ^^ show_i64 i
  key_part (float f) = "f:" ^^ p.show_float f
  key_part (varchar s) = "s:" ^^ s
  key_part (bool b) = "b:" ^^ show_bool b

  unfoldable pub make_group_key : List Value → String
  unfolding key_part join
  make_group_key vals = join "," (map key_part vals)

  -- `agg_funcs.iter().map(|(func, _, _)| AggState::new(func)).collect()`
  unfoldable pub new_states : List AggFunc → Outcome (List AggState)
  new_states [] = ok []
  new_states ((func, arg, name) ∷ rest) = do
    st ← new_state func
    sts ← new_states rest
    ok (st ∷ sts)

  -- `exprs.iter().map(|expr| expr.eval(..)).collect::<Result<Vec<_>>>()`
  unfoldable pub eval_all : List Expr → Tuple → Schema → Outcome (List Value)
  eval_all [] t s = ok []
  eval_all (e ∷ rest) t s = do v ← eval e t s; vs ← eval_all rest t s; ok (v ∷ vs)

  unfoldable pub eval_arg : Expr → Tuple → Schema → Outcome Value
  eval_arg star t s = ok (int (pos 1))
  eval_arg e t s = eval e t s

  -- The loop over `agg_funcs.iter().enumerate()` with `states[i].update(&val)`.
  unfoldable pub update_states :
      List AggFunc → List AggState → Tuple → Schema → Outcome (List AggState)
  unfolding eval_arg
  update_states [] sts t s = ok sts
  update_states ((func, arg, name) ∷ rest) [] t s =
      eval_arg arg t s >>= λ v. stop (panic index_out_of_bounds)
  update_states ((func, arg, name) ∷ rest) (st ∷ sts) t s = do
    v ← eval_arg arg t s
    sts' ← update_states rest sts t s
    ok (update st v ∷ sts')

  -- The hash tables of the operator.
  pub record Groups : Type 0 where
    pub groups : HashMap String (List AggState)
    pub group_keys : HashMap String (List Value)
    pub child_has_tuples : Bool

  abbrev pub no_groups : Groups
  no_groups = record { groups = []; group_keys = []; child_has_tuples = false }

  -- `groups.entry(key).or_insert_with(..)`
  abbrev pub entry :
      HashMap String (List AggState) → String → List AggFunc → Outcome (List AggState)
  entry m key funcs = elim (HashMap.get m key) [ none ↦ new_states funcs | some sts ↦ ok sts ]

  -- One round of the `while` loop in `init`.
  unfoldable pub agg_row : List Expr → List AggFunc → Schema → Groups → Tuple → Outcome Groups
  unfolding new_states eval_all update_states make_group_key
  agg_row group_by funcs s g t = do
    vals ← eval_all group_by t s
    let key = make_group_key vals
    sts ← entry g.groups key funcs
    sts' ← update_states funcs sts t s
    ok (record {
      groups = HashMap.insert g.groups key sts';
      group_keys = HashMap.insert g.group_keys key vals;
      child_has_tuples = true;
    })

  -- After the loop: a global aggregation over no rows has one group.
  unfoldable pub agg_finish : List Expr → List AggFunc → Groups → Outcome Groups
  unfolding new_states
  agg_finish group_by funcs g =
      if not g.child_has_tuples && is_empty group_by
      then (do
        sts ← new_states funcs
        ok (record g {
          groups = HashMap.insert g.groups "" sts;
          group_keys = HashMap.insert g.group_keys "" [];
        }))
      else ok g
