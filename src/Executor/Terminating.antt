-- ===== src/Executor/Terminating.antt =====
-- Queries of src/executor.rs terminate: from some amount of fuel on they have rows, an error or a
-- panic.
use volcano_db.Base.{
  Bool, [], ◌∷◌, Ordering, Option, none, some, List, string_eq, filter as keep_if,
}
use volcano_db.HashMap
use volcano_db.HashMap.{keys}
use volcano_db.Platform.{Platform}
use volcano_db.Outcome.{
  err, panic, out_of_fuel, Outcome, ok, stop, ◌>>=◌, table_not_in_storage, IsFinalStop, IsFinal,
  bind-IsFinal,
}
use volcano_db.Catalog.{Schema, Catalog}
use volcano_db.Storage.{Value, Tuple}
use volcano_db.Planner.Plan.{LogicalPlan, schema, unwrap_or}
use volcano_db.Planner.Expr.{Expr, eval}
use volcano_db.Planner.Final.{schema-IsFinal, eval-IsFinal}
use volcano_db.Executor.Agg.{no_groups, agg_row, agg_finish}
use volcano_db.Executor.Order.{or_null, or_later, compare_on, compare_rows, insert_sorted, sort_by}
use volcano_db.Executor.Defs.{
  ExecutionContext, Executor, dummy_scan, seq_scan, filter, project, limit, sort, nested_loop_join,
  hash_agg, sees,
}
use volcano_db.Executor.Build.{build_executor}
use volcano_db.Executor.Flow.{
  Flow, end, stuck, emit, flow_of, join_flow, collect, fold_flow, first_row, meaning,
}
use volcano_db.Executor.Final.{
  Finishes, flow_of-Finishes, filter_flow-Finishes, project_flow-Finishes, limit_flow-Finishes,
  join_flow-Finishes, collect-IsFinal, fold_flow-IsFinal, agg_row-IsFinal, agg_finish-IsFinal,
  group_flow-Finishes,
}

module _ {A : Type 0} (cmp : A → A → Outcome Ordering) (final : (x y : A) → IsFinal (cmp x y)) where
  insert_sorted-IsFinal : (x : A) (ys : List A) → IsFinal (insert_sorted cmp x ys)
  unfolding insert_sorted
  insert_sorted-IsFinal x [] = tt
  insert_sorted-IsFinal x (y ∷ ys) =
      bind-IsFinal (cmp x y) _ (final x y) (chosen (insert_sorted-IsFinal x ys))
    where
      chosen :
          IsFinal (insert_sorted cmp x ys)
          → (o : Ordering)
          → IsFinal (elim o as (λ _. Outcome (List A)) [
            | Ordering.gt ↦ insert_sorted cmp x ys >>= λ zs. ok (y ∷ zs)
            | _ ↦ ok (x ∷ y ∷ ys)
          ])
      chosen h Ordering.gt = bind-IsFinal (insert_sorted cmp x ys) _ h (λ zs. tt)
      chosen h Ordering.lt = tt
      chosen h Ordering.eq = tt

  sort_by-IsFinal : (xs : List A) → IsFinal (sort_by cmp xs)
  unfolding sort_by
  sort_by-IsFinal [] = tt
  sort_by-IsFinal (x ∷ xs) =
      bind-IsFinal (sort_by cmp xs) _ (sort_by-IsFinal xs) (insert_sorted-IsFinal x)

module _ ⦃p : Platform⦄ where
  or_null-IsFinal : (o : Outcome Value) → IsFinal o → IsFinal (or_null o)
  or_null-IsFinal (ok v) h = tt
  or_null-IsFinal (stop (err e)) h = tt
  or_null-IsFinal (stop (panic f)) h = tt
  or_null-IsFinal (stop out_of_fuel) h = h

  compare_on-IsFinal : (e : Expr) (s : Schema) (a b : Tuple) → IsFinal (compare_on e s a b)
  unfolding compare_on
  compare_on-IsFinal e s a b =
      bind-IsFinal (or_null (eval e a s)) _ (or_null-IsFinal (eval e a s) (eval-IsFinal e a s))
        (λ x.
          bind-IsFinal (or_null (eval e b s)) _ (or_null-IsFinal (eval e b s) (eval-IsFinal e b s))
            (λ y. tt))

  or_later-IsFinal :
      (asc : Bool) (o : Ordering) (later : Outcome Ordering)
      → IsFinal later
      → IsFinal (or_later asc o later)
  or_later-IsFinal asc Ordering.eq later h = h
  or_later-IsFinal asc Ordering.lt later h = tt
  or_later-IsFinal asc Ordering.gt later h = tt

  compare_rows-IsFinal :
      (order_by : List (Expr × Bool)) (s : Schema) (a b : Tuple)
      → IsFinal (compare_rows order_by s a b)
  unfolding compare_rows
  compare_rows-IsFinal [] s a b = tt
  compare_rows-IsFinal ((e, asc) ∷ rest) s a b =
      bind-IsFinal (compare_on e s a b) _ (compare_on-IsFinal e s a b)
        (λ o. or_later-IsFinal asc o (compare_rows rest s a b) (compare_rows-IsFinal rest s a b))

  abbrev Ends : Outcome Flow → Type 0
  Ends (ok fl) = Finishes fl
  Ends (stop x) = IsFinalStop x

  bind-Ends :
      (o : Outcome Flow) (f : Flow → Outcome Flow)
      → Ends o
      → ((fl : Flow) → Finishes fl → Ends (f fl))
      → Ends (o >>= f)
  bind-Ends (ok fl) f h k = k fl h
  bind-Ends (stop x) f h k = h

  final-Ends :
      {A : Type 0} (o : Outcome A) (f : A → Outcome Flow)
      → IsFinal o
      → ((a : A) → Ends (f a))
      → Ends (o >>= f)
  final-Ends (ok a) f h k = k a
  final-Ends (stop x) f h k = h

  first_row-Ends : (lf fl : Flow) → Finishes lf → Finishes fl → Ends (first_row lf fl)
  first_row-Ends (stuck x) fl h k = h
  first_row-Ends end fl h k = k
  first_row-Ends (emit t lf) fl h k = k

  meaning-Ends : (ctx : ExecutionContext) (ex : Executor) → Ends (meaning ctx ex)
  unfolding meaning
  meaning-Ends ctx (dummy_scan done) = tt
  meaning-Ends ctx (seq_scan name cursor) = found (HashMap.get ctx.tables name)
    where
      found :
          (o : Option (List Tuple))
          → Ends (elim o as (λ _. Outcome Flow) [
            | none ↦ ok (stuck (err (table_not_in_storage name)))
            | some rows ↦ ok (flow_of (keep_if (sees ctx) rows))
          ])
      found none = tt
      found (some rows) = flow_of-Finishes (keep_if (sees ctx) rows)
  meaning-Ends ctx (filter child pred s) =
      bind-Ends (meaning ctx child) _ (meaning-Ends ctx child)
        (λ fl h. filter_flow-Finishes pred s fl h)
  meaning-Ends ctx (project child es s) =
      bind-Ends (meaning ctx child) _ (meaning-Ends ctx child)
        (λ fl h. project_flow-Finishes es s fl h)
  meaning-Ends ctx (limit child l o cursor) =
      bind-Ends (meaning ctx child) _ (meaning-Ends ctx child)
        (λ fl h. limit_flow-Finishes l (unwrap_or o 0) fl h)
  meaning-Ends ctx (sort child order_by s rows cursor) =
      bind-Ends (meaning ctx child) _ (meaning-Ends ctx child) (λ fl h.
        final-Ends (collect fl) _ (collect-IsFinal fl h) (λ ts.
          final-Ends (sort_by (compare_rows order_by s) ts) _
            (sort_by-IsFinal (compare_rows order_by s) (compare_rows-IsFinal order_by s) ts)
            flow_of-Finishes))
  meaning-Ends ctx (nested_loop_join left right cond s rows l cursor) =
      bind-Ends (meaning ctx left) _ (meaning-Ends ctx left) (λ lf h.
        bind-Ends (meaning ctx right) _ (meaning-Ends ctx right) (λ rf k.
          final-Ends (collect rf) _ (collect-IsFinal rf k) (λ ts.
            first_row-Ends lf (join_flow cond s ts lf) h (join_flow-Finishes cond s ts lf h))))
  meaning-Ends ctx (hash_agg child group_by fs s g ks cursor) =
      bind-Ends (meaning ctx child) _ (meaning-Ends ctx child) (λ fl h.
        final-Ends (fold_flow (agg_row group_by fs s) no_groups fl) _
          (fold_flow-IsFinal (agg_row group_by fs s) (agg_row-IsFinal group_by fs s) no_groups fl h)
          (λ g'.
            final-Ends (agg_finish group_by fs g') _ (agg_finish-IsFinal group_by fs g')
              (λ g''. group_flow-Finishes g'' (p.hash_order (keys g''.groups)))))

  pub meaning-IsFinal :
      {A : Type 0} (ctx : ExecutionContext) (ex : Executor) (f : Flow → Outcome A)
      → ((fl : Flow) → Finishes fl → IsFinal (f fl))
      → IsFinal (meaning ctx ex >>= f)
  meaning-IsFinal ctx ex f k = go (meaning ctx ex) (meaning-Ends ctx ex)
    where
      go : (o : Outcome Flow) → Ends o → IsFinal (o >>= f)
      go (ok fl) h = k fl h
      go (stop x) h = h

  pub build_executor-IsFinal : (plan : LogicalPlan) (c : Catalog) → IsFinal (build_executor plan c)
  unfolding build_executor
  build_executor-IsFinal LogicalPlan.dummy_scan c = tt
  build_executor-IsFinal (LogicalPlan.scan table alias) c = tt
  build_executor-IsFinal (LogicalPlan.filter child pred) c =
      bind-IsFinal (build_executor child c) _ (build_executor-IsFinal child c)
        (λ ex. bind-IsFinal (schema child c) _ (schema-IsFinal child c) (λ s. tt))
  build_executor-IsFinal (LogicalPlan.project child es) c =
      bind-IsFinal (build_executor child c) _ (build_executor-IsFinal child c)
        (λ ex. bind-IsFinal (schema child c) _ (schema-IsFinal child c) (λ s. tt))
  build_executor-IsFinal (LogicalPlan.limit child l o) c =
      bind-IsFinal (build_executor child c) _ (build_executor-IsFinal child c) (λ ex. tt)
  build_executor-IsFinal (LogicalPlan.sort child order_by) c =
      bind-IsFinal (build_executor child c) _ (build_executor-IsFinal child c)
        (λ ex. bind-IsFinal (schema child c) _ (schema-IsFinal child c) (λ s. tt))
  build_executor-IsFinal (LogicalPlan.join left right cond) c =
      bind-IsFinal (build_executor left c) _ (build_executor-IsFinal left c) (λ l.
        bind-IsFinal (build_executor right c) _ (build_executor-IsFinal right c) (λ r.
          bind-IsFinal (schema (LogicalPlan.join left right cond) c) _
            (schema-IsFinal (LogicalPlan.join left right cond) c) (λ s. tt)))
  build_executor-IsFinal (LogicalPlan.agg child group_by fs) c =
      bind-IsFinal (build_executor child c) _ (build_executor-IsFinal child c)
        (λ ex. bind-IsFinal (schema child c) _ (schema-IsFinal child c) (λ s. tt))
