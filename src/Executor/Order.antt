-- ===== src/Executor/Order.antt =====
-- src/executor.rs: the comparison that ORDER BY sorts with, and `slice::sort_by`, the stable sort.
-- std promises a stable, sorted result where the comparison is a total order, and leaves open which
-- pairs are compared: the model inserts from the right, and panics where one of its own comparisons
-- does. Of two rows or more each takes part in one, so that which pairs these are matters only for a
-- panic of a later ORDER BY expression.
use volcano_db.Base.{Bool, true, false, Option, none, some, List, [], ◌∷◌, Ordering}
use volcano_db.Platform.{Platform}
use volcano_db.Outcome.{Outcome, ok, stop, err, panic, out_of_fuel, ◌>>=◌}
use volcano_db.Catalog.{Schema}
use volcano_db.Storage.{Value, null, Tuple, cmp_value}
use volcano_db.Planner.Expr.{Expr, eval}

abbrev pub reverse_order : Ordering → Ordering
reverse_order Ordering.lt = Ordering.gt
reverse_order Ordering.eq = Ordering.eq
reverse_order Ordering.gt = Ordering.lt

abbrev pub directed : Bool → Ordering → Ordering
directed true o = o
directed false o = reverse_order o

-- `unwrap_or(Ordering::Equal)`
abbrev pub or_equal : Option Ordering → Ordering
or_equal none = Ordering.eq
or_equal (some o) = o

-- The first order that is not `Equal` decides.
abbrev pub or_later : Bool → Ordering → Outcome Ordering → Outcome Ordering
or_later asc Ordering.eq later = later
or_later asc o later = ok (directed asc o)

module _ ⦃p : Platform⦄ where
  -- `unwrap_or(Value::Null)`: an error counts as NULL, a panic goes on.
  abbrev pub or_null : Outcome Value → Outcome Value
  or_null (ok v) = ok v
  or_null (stop (err e)) = ok null
  or_null (stop (panic f)) = stop (panic f)
  or_null (stop out_of_fuel) = stop out_of_fuel

  -- One ORDER BY expression.
  unfoldable pub compare_on : Expr → Schema → Tuple → Tuple → Outcome Ordering
  compare_on e s a b = do
    x ← or_null (eval e a s)
    y ← or_null (eval e b s)
    ok (or_equal (cmp_value x y))

  -- The closure that `sort_by` is given: an expression is evaluated where those before it compare
  -- as equal.
  unfoldable pub compare_rows : List (Expr × Bool) → Schema → Tuple → Tuple → Outcome Ordering
  unfolding compare_on
  compare_rows [] s a b = ok Ordering.eq
  compare_rows ((e, asc) ∷ rest) s a b =
      let later = compare_rows rest s a b in compare_on e s a b >>= λ o. or_later asc o later

module _ {ℓ} {A : Type ℓ} (cmp : A → A → Outcome Ordering) where
  unfoldable pub insert_sorted : A → List A → Outcome (List A)
  insert_sorted x [] = ok (x ∷ [])
  insert_sorted x (y ∷ ys) =
      let later = insert_sorted x ys in
      cmp x y >>= λ o. elim o [ Ordering.gt ↦ later >>= λ zs. ok (y ∷ zs) | _ ↦ ok (x ∷ y ∷ ys) ]

  -- `sort_by`: a panic of the comparison ends it.
  unfoldable pub sort_by : List A → Outcome (List A)
  unfolding insert_sorted
  sort_by [] = ok []
  sort_by (x ∷ xs) = sort_by xs >>= λ ys. insert_sorted x ys
