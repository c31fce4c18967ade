-- ===== src/Executor/Panics.antt =====
-- ORDER BY of src/executor.rs over an expression that panics on a row.
use mathlib.Core.Option.{some-injective}
use mathlib.Core.Path.{subst}
use volcano_db.Base.{
  ℕ, suc, zero, Bool, ◌≡◌, ◌≢◌, refl, ap, some, List, [], ◌∷◌, All, Ordering, get_elem?,
}
use volcano_db.Platform.{Platform}
use volcano_db.Outcome.{Fault, err, panic, out_of_fuel, Outcome, ok, stop, ◌>>=◌, bind_ok, IsFinal}
use volcano_db.Catalog.{Schema}
use volcano_db.Storage.{Value, Tuple}
use volcano_db.Planner.Expr.{Expr, eval}
use volcano_db.Planner.Final.{eval-IsFinal}
use volcano_db.Executor.Order.{or_null, or_later, insert_sorted, sort_by, compare_rows, compare_on}
use volcano_db.Executor.Defs.{ExecutionContext, Executor, sort}
use volcano_db.Executor.Flow.{flow_of, meaning}
use volcano_db.Executor.Yields.{Settles}
use volcano_db.Executor.Limits.{collect-flow_of}
use volcano_db.Executor.Refinement.{run, run-eq-meaning}

-- A result or a panic.
abbrev Answers : {A : Type 0} → Outcome A → Type 0
Answers (ok a) = Unit
Answers (stop (panic f)) = Unit
Answers (stop (err e)) = ⊥
Answers (stop out_of_fuel) = ⊥

bind-Answers :
    {A B : Type 0} (o : Outcome A) (f : A → Outcome B)
    → Answers o
    → ((a : A) → Answers (f a))
    → Answers (o >>= f)
bind-Answers (ok a) f h k = k a
bind-Answers (stop (panic g)) f h k = tt
bind-Answers (stop (err e)) f h k = elim h [ ]
bind-Answers (stop out_of_fuel) f h k = elim h [ ]

panics_unless :
    {A : Type 0} (o : Outcome A)
    → Answers o
    → ((a : A) → o ≢ ok a)
    → (f : Fault) × (o ≡ stop (panic f))
panics_unless (ok a) h k = absurd (k a refl)
panics_unless (stop (panic f)) h k = (f, refl)
panics_unless (stop (err e)) h k = elim h [ ]
panics_unless (stop out_of_fuel) h k = elim h [ ]

module _ {A : Type 0} (cmp : A → A → Outcome Ordering)
    (answers : (x y : A) → Answers (cmp x y)) where
  insert_sorted-Answers : (x : A) (ys : List A) → Answers (insert_sorted cmp x ys)
  unfolding insert_sorted
  insert_sorted-Answers x [] = tt
  insert_sorted-Answers x (y ∷ ys) =
      bind-Answers (cmp x y) _ (answers x y) (chosen (insert_sorted-Answers x ys))
    where
      chosen :
          Answers (insert_sorted cmp x ys)
          → (o : Ordering)
          → Answers (elim o as (λ _. Outcome (List A)) [
            | Ordering.gt ↦ insert_sorted cmp x ys >>= λ zs. ok (y ∷ zs)
            | _ ↦ ok (x ∷ y ∷ ys)
          ])
      chosen h Ordering.gt = bind-Answers (insert_sorted cmp x ys) (λ zs. ok (y ∷ zs)) h (λ zs. tt)
      chosen h Ordering.lt = tt
      chosen h Ordering.eq = tt

  sort_by-Answers : (xs : List A) → Answers (sort_by cmp xs)
  unfolding sort_by
  sort_by-Answers [] = tt
  sort_by-Answers (x ∷ xs) =
      bind-Answers (sort_by cmp xs) _ (sort_by-Answers xs) (insert_sorted-Answers x)

module _ {A : Type 0} (cmp : A → A → Outcome Ordering) (P : A → Type 0)
    (clean : (x y : A) (o : Ordering) → cmp x y ≡ ok o → P x × P y) where
  -- A row that is inserted before others is compared.
  inserted-P : (x y : A) (ys zs : List A) → insert_sorted cmp x (y ∷ ys) ≡ ok zs → P x × P y
  unfolding insert_sorted
  inserted-P x y ys zs e = let (o, h, _) = bind_ok (cmp x y) _ e in clean x y o h

  inserted_some :
      (x : A) (ys zs : List A)
      → insert_sorted cmp x ys ≡ ok zs
      → (z : A) × (rest : List A) × (zs ≡ z ∷ rest)
  unfolding insert_sorted
  inserted_some x [] zs e = (x, [], cc)
  inserted_some x (y ∷ ys) zs e = let (o, _, f) = bind_ok (cmp x y) _ e in chosen o f
    where
      chosen :
          (o : Ordering)
          → (elim o as (λ _. Outcome (List A)) [
            | Ordering.gt ↦ insert_sorted cmp x ys >>= λ zs. ok (y ∷ zs)
            | _ ↦ ok (x ∷ y ∷ ys)
          ])
            ≡ ok zs
          → (z : A) × (rest : List A) × (zs ≡ z ∷ rest)
      chosen Ordering.gt f = let (ws, _, g) = bind_ok (insert_sorted cmp x ys) _ f in (y, ws, cc)
      chosen Ordering.lt f = (x, y ∷ ys, cc)
      chosen Ordering.eq f = (x, y ∷ ys, cc)

  -- Every row of two or more takes part in a comparison.
  sorted-All : (x y : A) (ys zs : List A) → sort_by cmp (x ∷ y ∷ ys) ≡ ok zs → All P (x ∷ y ∷ ys)
  unfolding sort_by insert_sorted
  sorted-All x y [] zs e = let (hx, hy) = inserted-P x y [] zs e in (hx, (hy, tt))
  sorted-All x y (w ∷ ws) zs e =
      let (rs, h, f) = bind_ok (sort_by cmp (y ∷ w ∷ ws)) _ e in
      let (qs, _, g) = bind_ok (sort_by cmp (w ∷ ws)) _ h in
      let (r, rest, k) = inserted_some y qs rs g in
      (
        (inserted-P x r rest zs (subst (λ l. insert_sorted cmp x l ≡ ok zs) k f)).0,
        sorted-All y w ws rs h,
      )

module _ ⦃p : Platform⦄ where
  or_null-Answers : (o : Outcome Value) → IsFinal o → Answers (or_null o)
  or_null-Answers (ok v) h = tt
  or_null-Answers (stop (err e)) h = tt
  or_null-Answers (stop (panic f)) h = tt
  or_null-Answers (stop out_of_fuel) h = elim h [ ]

  or_null_panics :
      (o : Outcome Value) (v : Value) (f : Fault) → or_null o ≡ ok v → o ≢ stop (panic f)
  or_null_panics o v f e h = let g : or_null o ≡ stop (panic f) = ap or_null h in cc

  compare_rows-Answers :
      (order_by : List (Expr × Bool)) (s : Schema) (a b : Tuple)
      → Answers (compare_rows order_by s a b)
  unfolding compare_rows compare_on
  compare_rows-Answers [] s a b = tt
  compare_rows-Answers ((e, asc) ∷ rest) s a b =
      bind-Answers (compare_on e s a b) _
        (bind-Answers (or_null (eval e a s)) _ (or_null-Answers (eval e a s) (eval-IsFinal e a s))
          (λ x.
            bind-Answers (or_null (eval e b s)) _
              (or_null-Answers (eval e b s) (eval-IsFinal e b s)) (λ y. tt)))
        (λ o. decided o (compare_rows-Answers rest s a b))
    where
      decided :
          (o : Ordering)
          → Answers (compare_rows rest s a b)
          → Answers (or_later asc o (compare_rows rest s a b))
      decided Ordering.eq h = h
      decided Ordering.lt h = tt
      decided Ordering.gt h = tt

  -- The expression does not panic on the row.
  abbrev Passes : Expr → Schema → Tuple → Type 0
  Passes e s t = (f : Fault) → eval e t s ≢ stop (panic f)

  compared-Passes :
      (e : Expr) (asc : Bool) (rest : List (Expr × Bool)) (s : Schema) (a b : Tuple) (o : Ordering)
      → compare_rows ((e, asc) ∷ rest) s a b ≡ ok o
      → Passes e s a × Passes e s b
  unfolding compare_rows compare_on
  compared-Passes e asc rest s a b o h =
      let (q, k, _) = bind_ok (compare_on e s a b) _ h in
      let (x, hx, l) = bind_ok (or_null (eval e a s)) _ k in
      let (y, hy, _) = bind_ok (or_null (eval e b s)) _ l in
      (λ f. or_null_panics (eval e a s) x f hx, λ f. or_null_panics (eval e b s) y f hy)

  All-at :
      (P : Tuple → Type 0) (ts : List Tuple) (i : ℕ) (t : Tuple)
      → All P ts
      → get_elem? ts i ≡ some t
      → P t
  All-at P [] i t h e = cc
  All-at P (u ∷ ts) zero t h e = subst P (some-injective _ _ e) h.0
  All-at P (u ∷ ts) (suc i) t h e = All-at P ts i t h.1 e

  -- Over a child that yields at least two rows and then ends, an ORDER BY whose first expression
  -- panics on one of these rows panics, wherever the row stands: no rows come back, and no error.
  pub run-sort_of_panic :
      (ctx : ExecutionContext) (child : Executor) (t u : Tuple) (ts old : List Tuple) (cursor : ℕ)
      (e : Expr) (asc : Bool) (rest : List (Expr × Bool)) (s : Schema) (i : ℕ) (r : Tuple)
      (f : Fault)
      → meaning ctx child ≡ ok (flow_of (t ∷ u ∷ ts))
      → get_elem? (t ∷ u ∷ ts) i ≡ some r
      → eval e r s ≡ stop (panic f)
      → (g : Fault) × Settles
          (λ n. run ctx n (sort child ((e, asc) ∷ rest) s old cursor))
          (stop (panic g))
  unfolding meaning
  run-sort_of_panic ctx child t u ts old cursor e asc rest s i r f h at k =
      let cmp = compare_rows ((e, asc) ∷ rest) s in
      let (g, panics) =
        panics_unless (sort_by cmp (t ∷ u ∷ ts))
          (sort_by-Answers cmp (compare_rows-Answers ((e, asc) ∷ rest) s) (t ∷ u ∷ ts))
          (λ zs z.
            All-at (Passes e s) (t ∷ u ∷ ts) i r
              (sorted-All cmp (Passes e s) (compared-Passes e asc rest s) t u ts zs z) at f k) in
      (
        g,
        subst (Settles (λ n. run ctx n (sort child ((e, asc) ∷ rest) s old cursor)))
            (rw (h, collect-flow_of (t ∷ u ∷ ts), panics) refl)
            (run-eq-meaning ctx (sort child ((e, asc) ∷ rest) s old cursor)),
      )
