-- ===== src/Executor/Final.antt =====
-- What an operator tree means, in src/executor.rs, never ends for a lack of fuel.
use volcano_db.Base.{
  ℕ, zero, suc, Bool, true, false, String, Option, none, some, List, [], ◌∷◌, Option-cases, inl,
  inr, ◌==◌, string_eq, ◌&&◌, not, is_empty, if◌then◌else◌,
}
use volcano_db.HashMap
use volcano_db.HashMap.{HashMap, keys}
use volcano_db.Platform.{Platform}
use volcano_db.Outcome.{Outcome, ok, stop, IsFinalStop, IsFinal, bind-IsFinal, if-IsFinal}
use volcano_db.Catalog.{Schema}
use volcano_db.Storage.{Value, Tuple, is_truthy}
use volcano_db.Planner.Expr.{Expr, eval, const, col_ref, binary_op, func_call, star}
use volcano_db.Planner.Plan.{AggFunc}
use volcano_db.Planner.Final.{eval-IsFinal}
use volcano_db.Executor.Agg.{
  AggState, new_state, new_states, eval_all, eval_arg, update_states, make_group_key, entry, Groups,
  agg_row, agg_finish,
}
use volcano_db.Executor.Defs.{group_row}
use volcano_db.Executor.Flow.{
  Flow, end, stuck, emit, flow_of, keep_row, filter_flow, emit_values, project_flow, take_flow,
  limit_flow, combine, join_keep, join_row, join_flow, emit_outcome, group_flow, collect, fold_flow,
}

module _ ⦃p : Platform⦄ where
  -- However the flow ends, more fuel does not change it.
  abbrev pub Finishes : Flow → Type 0
  Finishes end = Unit
  Finishes (stuck x) = IsFinalStop x
  Finishes (emit t fl) = Finishes fl

  pub flow_of-Finishes : (ts : List Tuple) → Finishes (flow_of ts)
  flow_of-Finishes [] = tt
  flow_of-Finishes (t ∷ ts) = flow_of-Finishes ts

  keep_row-Finishes :
      (o : Outcome Value) (t : Tuple) (rest : Flow)
      → IsFinal o
      → Finishes rest
      → Finishes (keep_row o t rest)
  keep_row-Finishes (stop x) t rest h k = h
  keep_row-Finishes (ok v) t rest h k = chosen (is_truthy v)
    where
      chosen : (b : Bool) → Finishes (if b then emit t rest else rest)
      chosen true = k
      chosen false = k

  pub filter_flow-Finishes :
      (pred : Expr) (s : Schema) (fl : Flow) → Finishes fl → Finishes (filter_flow pred s fl)
  filter_flow-Finishes pred s end h = tt
  filter_flow-Finishes pred s (stuck x) h = h
  filter_flow-Finishes pred s (emit t fl) h =
      keep_row-Finishes (eval pred t s) t (filter_flow pred s fl) (eval-IsFinal pred t s)
        (filter_flow-Finishes pred s fl h)

  eval_all-IsFinal : (es : List Expr) (t : Tuple) (s : Schema) → IsFinal (eval_all es t s)
  unfolding eval_all
  eval_all-IsFinal [] t s = tt
  eval_all-IsFinal (e ∷ rest) t s =
      bind-IsFinal (eval e t s) _ (eval-IsFinal e t s)
        (λ v. bind-IsFinal (eval_all rest t s) _ (eval_all-IsFinal rest t s) (λ vs. tt))

  emit_values-Finishes :
      (o : Outcome (List Value)) (rest : Flow)
      → IsFinal o
      → Finishes rest
      → Finishes (emit_values o rest)
  emit_values-Finishes (ok vs) rest h k = k
  emit_values-Finishes (stop x) rest h k = h

  pub project_flow-Finishes :
      (es : List Expr) (s : Schema) (fl : Flow) → Finishes fl → Finishes (project_flow es s fl)
  project_flow-Finishes es s end h = tt
  project_flow-Finishes es s (stuck x) h = h
  project_flow-Finishes es s (emit t fl) h =
      emit_values-Finishes (eval_all es t s) (project_flow es s fl) (eval_all-IsFinal es t s)
        (project_flow-Finishes es s fl h)

  take_flow-Finishes : (l : Option ℕ) (fl : Flow) → Finishes fl → Finishes (take_flow l fl)
  take_flow-Finishes none fl h = h
  take_flow-Finishes (some zero) fl h = tt
  take_flow-Finishes (some (suc n)) end h = tt
  take_flow-Finishes (some (suc n)) (stuck x) h = h
  take_flow-Finishes (some (suc n)) (emit t fl) h = take_flow-Finishes (some n) fl h

  pub limit_flow-Finishes :
      (l : Option ℕ) (d : ℕ) (fl : Flow) → Finishes fl → Finishes (limit_flow l d fl)
  limit_flow-Finishes l zero fl h = take_flow-Finishes l fl h
  limit_flow-Finishes l (suc d) end h = tt
  limit_flow-Finishes l (suc d) (stuck x) h = h
  limit_flow-Finishes l (suc d) (emit t fl) h = limit_flow-Finishes l d fl h

  join_keep-Finishes :
      (cond : Option Expr) (s : Schema) (row : Tuple) (rest : Flow)
      → Finishes rest
      → Finishes (join_keep cond s row rest)
  join_keep-Finishes none s row rest h = h
  join_keep-Finishes (some c) s row rest h =
      keep_row-Finishes (eval c row s) row rest (eval-IsFinal c row s) h

  join_row-Finishes :
      (cond : Option Expr) (s : Schema) (l : Tuple) (rs : List Tuple) (rest : Flow)
      → Finishes rest
      → Finishes (join_row cond s l rs rest)
  join_row-Finishes cond s l [] rest h = h
  join_row-Finishes cond s l (r ∷ rs) rest h =
      join_keep-Finishes cond s (combine l r) (join_row cond s l rs rest)
        (join_row-Finishes cond s l rs rest h)

  pub join_flow-Finishes :
      (cond : Option Expr) (s : Schema) (rows : List Tuple) (fl : Flow)
      → Finishes fl
      → Finishes (join_flow cond s rows fl)
  join_flow-Finishes cond s rows end h = tt
  join_flow-Finishes cond s rows (stuck x) h = h
  join_flow-Finishes cond s rows (emit l fl) h =
      join_row-Finishes cond s l rows (join_flow cond s rows fl)
        (join_flow-Finishes cond s rows fl h)

  pub collect-IsFinal : (fl : Flow) → Finishes fl → IsFinal (collect fl)
  collect-IsFinal end h = tt
  collect-IsFinal (stuck x) h = h
  collect-IsFinal (emit t fl) h = bind-IsFinal (collect fl) _ (collect-IsFinal fl h) (λ ts. tt)

  pub fold_flow-IsFinal :
      {S : Type 0} (body : S → Tuple → Outcome S)
      → ((s : S) (t : Tuple) → IsFinal (body s t))
      → (s : S) (fl : Flow) → Finishes fl
      → IsFinal (fold_flow body s fl)
  fold_flow-IsFinal body each s end h = tt
  fold_flow-IsFinal body each s (stuck x) h = h
  fold_flow-IsFinal body each s (emit t fl) h =
      bind-IsFinal (body s t) _ (each s t) (λ s'. fold_flow-IsFinal body each s' fl h)

  new_state-IsFinal : (func : String) → IsFinal (new_state func)
  unfolding new_state
  new_state-IsFinal func = if-IsFinal (func == "count") _ _ tt (
      if-IsFinal (func == "sum") _ _ tt (
        if-IsFinal (func == "avg") _ _ tt
          (if-IsFinal (func == "min") _ _ tt (if-IsFinal (func == "max") _ _ tt tt))))

  new_states-IsFinal : (fs : List AggFunc) → IsFinal (new_states fs)
  unfolding new_states
  new_states-IsFinal [] = tt
  new_states-IsFinal ((func, arg, name) ∷ rest) =
      bind-IsFinal (new_state func) _ (new_state-IsFinal func)
        (λ st. bind-IsFinal (new_states rest) _ (new_states-IsFinal rest) (λ sts. tt))

  eval_arg-IsFinal : (e : Expr) (t : Tuple) (s : Schema) → IsFinal (eval_arg e t s)
  unfolding eval_arg
  eval_arg-IsFinal star t s = tt
  eval_arg-IsFinal (const v) t s = eval-IsFinal (const v) t s
  eval_arg-IsFinal (col_ref name) t s = eval-IsFinal (col_ref name) t s
  eval_arg-IsFinal (binary_op op l r) t s = eval-IsFinal (binary_op op l r) t s
  eval_arg-IsFinal (func_call name arg) t s = eval-IsFinal (func_call name arg) t s

  update_states-IsFinal :
      (fs : List AggFunc) (sts : List AggState) (t : Tuple) (s : Schema)
      → IsFinal (update_states fs sts t s)
  unfolding update_states
  update_states-IsFinal [] sts t s = tt
  update_states-IsFinal ((func, arg, name) ∷ rest) [] t s =
      bind-IsFinal (eval_arg arg t s) _ (eval_arg-IsFinal arg t s) (λ v. tt)
  update_states-IsFinal ((func, arg, name) ∷ rest) (st ∷ sts) t s =
      bind-IsFinal (eval_arg arg t s) _ (eval_arg-IsFinal arg t s) (λ v.
        bind-IsFinal (update_states rest sts t s) _ (update_states-IsFinal rest sts t s)
          (λ sts'. tt))

  entry-IsFinal :
      (m : HashMap String (List AggState)) (key : String) (fs : List AggFunc)
      → IsFinal (entry m key fs)
  entry-IsFinal m key fs = found (HashMap.get m key)
    where
      found :
          (o : Option (List AggState))
          → IsFinal (elim o as (λ _. Outcome (List AggState)) [
            | none ↦ new_states fs
            | some sts ↦ ok sts
          ])
      found none = new_states-IsFinal fs
      found (some sts) = tt

  pub agg_row-IsFinal :
      (group_by : List Expr) (fs : List AggFunc) (s : Schema) (g : Groups) (t : Tuple)
      → IsFinal (agg_row group_by fs s g t)
  unfolding agg_row
  agg_row-IsFinal group_by fs s g t =
      bind-IsFinal (eval_all group_by t s) _ (eval_all-IsFinal group_by t s) (λ vals.
        bind-IsFinal (entry g.groups (make_group_key vals) fs) _
          (entry-IsFinal g.groups (make_group_key vals) fs)
          (λ sts.
            bind-IsFinal (update_states fs sts t s) _ (update_states-IsFinal fs sts t s)
              (λ sts'. tt)))

  pub agg_finish-IsFinal :
      (group_by : List Expr) (fs : List AggFunc) (g : Groups) → IsFinal (agg_finish group_by fs g)
  unfolding agg_finish
  agg_finish-IsFinal group_by fs g =
      if-IsFinal (not g.child_has_tuples && is_empty group_by) _ _
        (bind-IsFinal (new_states fs) _ (new_states-IsFinal fs) (λ sts. tt)) tt

  group_row-IsFinal : (g : Groups) (key : String) → IsFinal (group_row g key)
  unfolding group_row
  group_row-IsFinal g key = elim (Option-cases (HashMap.get g.group_keys key)) [
    | inl e ↦ rw (e, group_row) tt
    | inr (vals, e) ↦ elim (Option-cases (HashMap.get g.groups key)) [
      | inl f ↦ rw (e, f, group_row) tt
      | inr (sts, f) ↦ rw (e, f, group_row) tt
    ]
  ]

  emit_outcome-Finishes :
      (o : Outcome Tuple) (rest : Flow) → IsFinal o → Finishes rest → Finishes (emit_outcome o rest)
  emit_outcome-Finishes (ok t) rest h k = k
  emit_outcome-Finishes (stop x) rest h k = h

  pub group_flow-Finishes : (g : Groups) (ks : List String) → Finishes (group_flow g ks)
  group_flow-Finishes g [] = tt
  group_flow-Finishes g (k ∷ ks) =
      emit_outcome-Finishes (group_row g k) (group_flow g ks) (group_row-IsFinal g k)
        (group_flow-Finishes g ks)
