-- ===== src/Executor/Defs.antt =====
-- src/executor.rs: the operators as one data type, a constructor with the fields of each struct, and
-- `next` of the trait `Executor`. A method that returns an error or panics gives no new state:
-- its callers hand the failure on and drop the whole tree.
-- `next` and the loops around it take fuel; `rec` is `next` with less of it, and stands both for the
-- call of a child's `next` and for the next round of an operator's own loop.
use volcano_db.Base.{
  ℕ, zero, suc, ◌+◌, ◌-◌, Bool, true, false, String, Option, none, some, List, [], ◌∷◌, ◌++◌, map,
  string_eq, get_elem?, drop, ltb, leb, if◌then◌else◌,
}
use volcano_db.HashMap
use volcano_db.HashMap.{HashMap, keys}
use volcano_db.Platform.{Platform}
use volcano_db.Outcome.{
  Outcome, ok, stop, fail, panic, out_of_fuel, ◌>>=◌, table_not_in_storage, missing_key,
}
use volcano_db.Catalog.{Schema}
use volcano_db.Storage.{Tuple, plain_tuple, is_truthy}
use volcano_db.Planner.Expr.{Expr, eval}
use volcano_db.Planner.Plan.{AggFunc, unwrap_or}
use volcano_db.Tx.Manager.{TransactionManager, is_visible}
use volcano_db.Executor.Agg.{Groups, eval_all, finalize}

module _ ⦃p : Platform⦄ where
  pub record ExecutionContext : Type 0 where
    pub tables : HashMap String (List Tuple)
    pub tx_mgr : TransactionManager
    pub session_tx_id : Option ℕ
    pub cr_scn : ℕ

  pub data Executor : Type 0 where
    -- done
    dummy_scan : Bool → Executor
    -- table_name, cursor
    seq_scan : String → ℕ → Executor
    -- child, predicate, schema
    filter : Executor → Expr → Schema → Executor
    -- child, exprs, child_schema
    project : Executor → List Expr → Schema → Executor
    -- child, limit, offset, cursor
    limit : Executor → Option ℕ → Option ℕ → ℕ → Executor
    -- child, order_by, schema, sorted_tuples, cursor
    sort : Executor → List (Expr × Bool) → Schema → List Tuple → ℕ → Executor
    -- left, right, condition, combined_schema, right_tuples, left_tuple, right_cursor
    nested_loop_join :
        Executor → Executor → Option Expr → Schema → List Tuple → Option Tuple → ℕ → Executor
    -- child, group_by, agg_funcs, child_schema, the hash tables, result_keys, cursor
    hash_agg : Executor → List Expr → List AggFunc → Schema → Groups → List String → ℕ → Executor

  abbrev pub Pull : Type 0
  Pull = Option Tuple × Executor

  abbrev pub sees : ExecutionContext → Tuple → Bool
  sees ctx t = is_visible ctx.tx_mgr t.tx_id ctx.session_tx_id ctx.cr_scn

  unfoldable pub dummy_next : Bool → Outcome Pull
  dummy_next false = ok (some (plain_tuple []), dummy_scan true)
  dummy_next true = ok (none, dummy_scan true)

  -- The `while` loop of the scan, over the rows from the cursor on.
  unfoldable pub scan_from : ExecutionContext → String → List Tuple → ℕ → Pull
  scan_from ctx name [] cursor = (none, seq_scan name cursor)
  scan_from ctx name (t ∷ rest) cursor =
      let skip = scan_from ctx name rest (cursor + 1) in
      if sees ctx t then (some t, seq_scan name (cursor + 1)) else skip

  unfoldable pub scan_next : ExecutionContext → String → ℕ → Outcome Pull
  unfolding scan_from
  scan_next ctx name cursor = elim (HashMap.get ctx.tables name) [
    | none ↦ fail (table_not_in_storage name)
    | some tuples ↦ ok (scan_from ctx name (drop cursor tuples) cursor)
  ]

  unfoldable pub project_row : List Expr → Schema → Pull → Outcome Pull
  project_row exprs s (none, child) = ok (none, project child exprs s)
  project_row exprs s (some t, child) = do
    vals ← eval_all exprs t s
    ok (some (plain_tuple vals), project child exprs s)

  unfoldable pub limit_take : Option ℕ → Option ℕ → ℕ → Pull → Outcome Pull
  limit_take l o cursor (none, child) = ok (none, limit child l o cursor)
  limit_take l o cursor (some t, child) = ok (some t, limit child l o (cursor + 1))

  abbrev pub limit_reached : Option ℕ → ℕ → Bool
  limit_reached none taken = false
  limit_reached (some n) taken = leb n taken

  module _ (rec : Executor → Outcome Pull) where
    -- What `filter_next` does with the child's answer.
    unfoldable pub filter_test : Expr → Schema → Pull → Outcome Pull
    filter_test pred s (none, child) = ok (none, filter child pred s)
    filter_test pred s (some t, child) = do
      val ← eval pred t s
      elim (is_truthy val) [
        | true ↦ ok (some t, filter child pred s)
        | false ↦ rec (filter child pred s)
      ]

    unfoldable pub filter_next : Executor → Expr → Schema → Outcome Pull
    unfolding filter_test
    filter_next child pred s = rec child >>= filter_test pred s

    unfoldable pub project_next : Executor → List Expr → Schema → Outcome Pull
    unfolding project_row
    project_next child exprs s = rec child >>= project_row exprs s

    unfoldable pub limit_skip : Option ℕ → Option ℕ → ℕ → Pull → Outcome Pull
    limit_skip l o cursor (none, child) = ok (none, limit child l o cursor)
    limit_skip l o cursor (some t, child) = rec (limit child l o (cursor + 1))

    unfoldable pub limit_next : Executor → Option ℕ → Option ℕ → ℕ → Outcome Pull
    unfolding limit_skip limit_take
    limit_next child l o cursor =
        let offset = unwrap_or o 0 in
        elim (ltb cursor offset) [
          | true ↦ rec child >>= limit_skip l o cursor
          | false ↦ elim (limit_reached l (cursor - offset)) [
            | true ↦ ok (none, limit child l o cursor)
            | false ↦ rec child >>= limit_take l o cursor
          ]
        ]

    unfoldable pub join_advance : Executor → Option Expr → Schema → List Tuple → Pull → Outcome Pull
    join_advance right cond s rows (left_tuple, left) =
        rec (nested_loop_join left right cond s rows left_tuple 0)

    -- The combined row meets the condition, or the loop goes on.
    unfoldable pub join_test : Option Expr → Schema → Tuple → Executor → Outcome Pull
    join_test none s row self = ok (some row, self)
    join_test (some cond) s row self = do
      val ← eval cond row s
      elim (is_truthy val) [ true ↦ ok (some row, self) | false ↦ rec self ]

    unfoldable pub join_next :
        Executor → Executor → Option Expr → Schema → List Tuple → Option Tuple → ℕ → Outcome Pull
    unfolding join_advance join_test
    join_next left right cond s rows none cursor =
        ok (none, nested_loop_join left right cond s rows none cursor)
    join_next left right cond s rows (some l) cursor = elim (get_elem? rows cursor) [
      | none ↦ rec left >>= join_advance right cond s rows
      | some r ↦
          join_test cond s (plain_tuple (l.values ++ r.values))
            (nested_loop_join left right cond s rows (some l) (cursor + 1))
    ]

  unfoldable pub sort_next : Executor → List (Expr × Bool) → Schema → List Tuple → ℕ → Outcome Pull
  sort_next child order_by s rows cursor = elim (get_elem? rows cursor) [
    | none ↦ ok (none, sort child order_by s rows cursor)
    | some t ↦ ok (some t, sort child order_by s rows (cursor + 1))
  ]

  -- `group_keys.get(key).unwrap()` and `groups.get(key).unwrap()`
  unfoldable pub group_row : Groups → String → Outcome Tuple
  group_row g key = elim (HashMap.get g.group_keys key) [
    | none ↦ stop (panic missing_key)
    | some vals ↦ elim (HashMap.get g.groups key) [
      | none ↦ stop (panic missing_key)
      | some sts ↦ ok (plain_tuple (vals ++ map finalize sts))
    ]
  ]

  unfoldable pub agg_next :
      Executor → List Expr → List AggFunc → Schema → Groups → List String → ℕ → Outcome Pull
  unfolding group_row
  agg_next child group_by funcs s g ks cursor = elim (get_elem? ks cursor) [
    | none ↦ ok (none, hash_agg child group_by funcs s g ks cursor)
    | some key ↦ do
      row ← group_row g key
      ok (some row, hash_agg child group_by funcs s g ks (cursor + 1))
  ]

  unfoldable pub next_step : (Executor → Outcome Pull) → ExecutionContext → Executor → Outcome Pull
  next_step rec ctx (dummy_scan done) = dummy_next done
  next_step rec ctx (seq_scan name cursor) = scan_next ctx name cursor
  next_step rec ctx (filter child pred s) = filter_next rec child pred s
  next_step rec ctx (project child exprs s) = project_next rec child exprs s
  next_step rec ctx (limit child l o cursor) = limit_next rec child l o cursor
  next_step rec ctx (sort child order_by s rows cursor) = sort_next child order_by s rows cursor
  next_step rec ctx (nested_loop_join left right cond s rows l cursor) =
      join_next rec left right cond s rows l cursor
  next_step rec ctx (hash_agg child group_by funcs s g ks cursor) =
      agg_next child group_by funcs s g ks cursor

  -- Executor::next
  unfoldable pub next : ℕ → ExecutionContext → Executor → Outcome Pull
  next zero ctx ex = stop out_of_fuel
  next (suc fuel) ctx ex = next_step (next fuel ctx) ctx ex

  -- `while let Some(tuple) = child.next(ctx)? { body }`, with the variables that the body changes.
  unfoldable pub while_round :
      {S : Type 0}
      → (S → Executor → Outcome (S × Executor))
      → (S → Tuple → Outcome S)
      → S
      → Pull
      → Outcome (S × Executor)
  while_round again body s (none, ex) = ok (s, ex)
  while_round again body s (some t, ex) = body s t >>= λ s'. again s' ex

  unfoldable pub while_next :
      {S : Type 0}
      → ℕ
      → ExecutionContext
      → (S → Tuple → Outcome S)
      → S
      → Executor
      → Outcome (S × Executor)
  unfolding while_round
  while_next zero ctx body s ex = stop out_of_fuel
  while_next (suc fuel) ctx body s ex =
      next fuel ctx ex >>= while_round (while_next fuel ctx body) body s

  abbrev pub push : List Tuple → Tuple → Outcome (List Tuple)
  push rows t = ok (rows ++ (t ∷ []))
