-- ===== src/Tests/Sorted.antt =====
-- ORDER BY on the fixture, by the whole numbers of the rows and by an expression that panics.
use mathlib.Core.List.{Perm}
use volcano_db.Base.{ℕ, ◌≡◌, ◌≢◌, refl, arith, Bool, String, Option, none, List, [], ◌∷◌, Ordering}
use volcano_db.Base.Int.{pos, negsuc, compare_ℤ}
use volcano_db.Outcome.{ok, stop, panic, Fault, division_overflow}
use volcano_db.Storage.{int, Tuple}
use volcano_db.Planner.Expr.{Expr, col_ref, const, binary_op}
use volcano_db.Executor.Order.{or_later, compare_rows}
use volcano_db.Executor.Defs.{Executor}
use volcano_db.Executor.Yields.{Settles}
use volcano_db.Executor.Refinement.{run}
use volcano_db.Executor.Panics.{run-sort_of_panic}
use volcano_db.Executor.Sorting.{Orders, InOrder, run-sort}
use volcano_db.Handler.Defs.{context_of}
use volcano_db.Tests.Evaluate.{everything}
use volcano_db.Tests.Fixture.{whole_numbers, row, database, session, users_schema}

abbrev by_id : List (Expr × Bool)
by_id = (col_ref "id", Bool.true) ∷ []

abbrev IsUser : Tuple → Type 0
IsUser t = (i : ℕ) × (name : String) × (tx : Option ℕ) × (t ≡ row i name tx)

later_answers : (o : Ordering) → (q : Ordering) × (or_later Bool.true o (ok Ordering.eq) ≡ ok q)
later_answers Ordering.lt = (Ordering.lt, refl)
later_answers Ordering.eq = (Ordering.eq, refl)
later_answers Ordering.gt = (Ordering.gt, refl)

ids_answers :
    (i j : ℕ) (m n : String) (s t : Option ℕ)
    → (o : Ordering) × (compare_rows by_id users_schema (row i m s) (row j n t) ≡ ok o)
unfolding everything
ids_answers i j m n s t = later_answers (compare_ℤ (pos i) (pos j))

ids_total :
    (i j : ℕ) (m n : String) (s t : Option ℕ)
    → compare_rows by_id users_schema (row i m s) (row j n t) ≡ ok Ordering.gt
    → compare_rows by_id users_schema (row j n t) (row i m s) ≢ ok Ordering.gt
unfolding everything
ids_total i j m n s t = ground arith

ids_transitive :
    (i j k : ℕ) (l m n : String) (r s t : Option ℕ)
    → compare_rows by_id users_schema (row i l r) (row j m s) ≢ ok Ordering.gt
    → compare_rows by_id users_schema (row j m s) (row k n t) ≢ ok Ordering.gt
    → compare_rows by_id users_schema (row i l r) (row k n t) ≢ ok Ordering.gt
unfolding everything
ids_transitive i j k l m n r s t = ground arith

ids_order : Orders (compare_rows by_id users_schema) IsUser
ids_order = record {
  answers = λ x y hx hy.
      let (i, m, s, e) = hx in let (j, n, t, f) = hy in rw (e, f) (ids_answers i j m n s t);
  total = λ x y hx hy.
      let (i, m, s, e) = hx in let (j, n, t, f) = hy in rw (e, f) (ids_total i j m n s t);
  transitive = λ x y z hx hy hz.
      let (i, l, r, e) = hx in
      let (j, m, s, f) = hy in
      let (k, n, t, g) = hz in rw (e, f, g) (ids_transitive i j k l m n r s t);
}

run-sort_example :
    (rows : List Tuple) × Settles
      (λ f.
        run
          (context_of database session)
          f
          (Executor.sort (Executor.seq_scan "users" 0) by_id users_schema [] 0))
      (ok rows)
    × Perm rows (row 3 "c" none ∷ row 1 "a" none ∷ row 0 "z" none ∷ [])
    × InOrder (compare_rows by_id users_schema) rows
unfolding everything
run-sort_example =
    run-sort (context_of database session) (Executor.seq_scan "users" 0)
      (row 3 "c" none ∷ row 1 "a" none ∷ row 0 "z" none ∷ []) [] 0 by_id users_schema IsUser refl
      ids_order ((3, "c", none, refl), ((1, "a", none, refl), ((0, "z", none, refl), tt)))

-- The least i64 divided by `id - 1`, which is -1 on the last row
abbrev overflow : Expr
overflow =
    binary_op "/" (const (int (negsuc 9223372036854775807)))
      (binary_op "-" (col_ref "id") (const (int (pos 1))))

run-sort_of_panic_example :
    (g : Fault) × Settles
      (λ f. run (context_of database session) f (
        Executor.sort (Executor.seq_scan "users" 0) ((overflow, Bool.true) ∷ []) users_schema [] 0))
      (stop (panic g))
unfolding everything
run-sort_of_panic_example =
    run-sort_of_panic (context_of database session) (Executor.seq_scan "users" 0) (row 3 "c" none)
      (row 1 "a" none) (row 0 "z" none ∷ []) [] 0 overflow Bool.true [] users_schema 2
      (row 0 "z" none) division_overflow refl refl refl
