-- ===== src/Executor/Unsorted.antt =====
-- ORDER BY of src/executor.rs over expressions that do not evaluate on the rows it is given: an
-- aggregate call, or a column that the target list has dropped.
use mathlib.Core.Path.{subst}
use volcano_db.Base.{ℕ, Bool, true, false, ◌≡◌, refl, List, [], ◌∷◌, All, Ordering}
use volcano_db.Platform.{Platform}
use volcano_db.Outcome.{Error, Outcome, ok, fail}
use volcano_db.Catalog.{Schema}
use volcano_db.Storage.{Tuple, cmp_value}
use volcano_db.Planner.Expr.{Expr, eval}
use volcano_db.Executor.Order.{insert_sorted, sort_by, compare_rows, compare_on}
use volcano_db.Executor.Defs.{ExecutionContext, Executor, sort}
use volcano_db.Executor.Flow.{flow_of, meaning}
use volcano_db.Executor.Sorting.{insert_step}
use volcano_db.Executor.Yields.{Settles}
use volcano_db.Executor.Limits.{collect-flow_of}
use volcano_db.Executor.Refinement.{run, run-eq-meaning}

module _ {A : Type 0} (cmp : A → A → Outcome Ordering) (P : A → Type 0)
    (same : (x y : A) → P x → P y → cmp x y ≡ ok Ordering.eq) where
  insert_sorted-same : (x : A) (ys : List A) → P x → All P ys → insert_sorted cmp x ys ≡ ok (x ∷ ys)
  unfolding insert_sorted
  insert_sorted-same x [] h hs = refl
  insert_sorted-same x (y ∷ ys) h (k, ks) = insert_step cmp x y ys Ordering.eq (same x y h k)

  sort_by-same : (xs : List A) → All P xs → sort_by cmp xs ≡ ok xs
  unfolding sort_by
  sort_by-same [] h = refl
  sort_by-same (x ∷ xs) (h, hs) = rw (sort_by-same xs hs) (insert_sorted-same x xs h hs)

module _ ⦃p : Platform⦄ where
  -- None of the ORDER BY expressions evaluates on the row.
  abbrev pub Fails : List (Expr × Bool) → Schema → Tuple → Type 0
  Fails order_by s t = All (λ (o : Expr × Bool). (e : Error) × (eval o.0 t s ≡ fail e)) order_by

  compare_rows-same :
      (order_by : List (Expr × Bool)) (s : Schema) (a b : Tuple)
      → Fails order_by s a
      → Fails order_by s b
      → compare_rows order_by s a b ≡ ok Ordering.eq
  unfolding compare_rows compare_on cmp_value
  compare_rows-same [] s a b ha hb = refl
  compare_rows-same ((e, true) ∷ rest) s a b ((x, ea), ha) ((y, eb), hb) =
      rw (ea, eb) (compare_rows-same rest s a b ha hb)
  compare_rows-same ((e, false) ∷ rest) s a b ((x, ea), ha) ((y, eb), hb) =
      rw (ea, eb) (compare_rows-same rest s a b ha hb)

  -- Over a child that yields certain rows and then ends, an ORDER BY none of whose expressions
  -- evaluates on any of the rows reports no error: it yields the rows as they come.
  pub run-sort_of_failures :
      (ctx : ExecutionContext) (child : Executor) (ts old : List Tuple) (cursor : ℕ)
      (order_by : List (Expr × Bool)) (s : Schema)
      → meaning ctx child ≡ ok (flow_of ts)
      → All (Fails order_by s) ts
      → Settles (λ f. run ctx f (sort child order_by s old cursor)) (ok ts)
  unfolding meaning
  run-sort_of_failures ctx child ts old cursor order_by s e h =
      subst (Settles (λ f. run ctx f (sort child order_by s old cursor)))
        (rw
          (
            e,
            collect-flow_of ts,
            sort_by-same (compare_rows order_by s) (Fails order_by s) (compare_rows-same order_by s)
                ts h,
          )
          (collect-flow_of ts))
        (run-eq-meaning ctx (sort child order_by s old cursor))
