-- ===== src/Tests/Queries.antt =====
-- Queries over the fixture, and the theorems about them at these inputs.
use volcano_db.Base.{◌≡◌, refl, [], ◌∷◌, some, none}
use volcano_db.Outcome.{ok}
use volcano_db.Executor.Yields.{Settles}
use volcano_db.Storage.{varchar}
use volcano_db.Executor.Agg.{make_group_key}
use volcano_db.Executor.Limits.{run-limit}
use volcano_db.Executor.Keys.{make_group_key_collides}
use volcano_db.Executor.Defs.{Executor}
use volcano_db.Executor.Refinement.{run, run-eq-meaning}
use volcano_db.Handler.Defs.{context_of, run_query, row_set}
use volcano_db.Handler.Query.{run_query-eq-answer}
use volcano_db.Tests.Evaluate.{everything}
use volcano_db.Tests.Fixture.{whole_numbers, row, database, session, two_names, pairs}

two_names_runs :
    run_query 20 database session two_names
    ≡ ok (row_set ("name" ∷ []) (("a" ∷ []) ∷ ("c" ∷ []) ∷ []))
unfolding everything
two_names_runs = refl

pairs_counted :
    run_query 40 database session pairs ≡ ok (row_set ("count(*)" ∷ []) (("3" ∷ []) ∷ []))
unfolding everything
pairs_counted = refl

run_query-eq-answer_example :
    Settles
      (λ f. run_query f database session two_names)
      (ok (row_set ("name" ∷ []) (("a" ∷ []) ∷ ("c" ∷ []) ∷ [])))
unfolding everything
run_query-eq-answer_example = run_query-eq-answer database session two_names

-- A cursor at the end of the table, as after an earlier run.
abbrev old_tree : Executor
old_tree = Executor.limit (Executor.seq_scan "users" 4) (some 1) (some 1) 7

run-eq-meaning_example :
    Settles (λ f. run (context_of database session) f old_tree) (ok (row 1 "a" none ∷ []))
unfolding everything
run-eq-meaning_example = run-eq-meaning (context_of database session) old_tree

make_group_key_collides_example :
    make_group_key (varchar "x,s:y" ∷ varchar "z" ∷ [])
    ≡ make_group_key (varchar "x" ∷ varchar "y,s:z" ∷ [])
make_group_key_collides_example = make_group_key_collides "x" "y" "z"

-- LIMIT 2 OFFSET 1 over the visible rows
run-limit_example :
    Settles
      (λ f.
        run
          (context_of database session)
          f
          (Executor.limit (Executor.seq_scan "users" 0) (some 2) (some 1) 0))
      (ok (row 1 "a" none ∷ row 0 "z" none ∷ []))
unfolding everything
run-limit_example =
    run-limit (context_of database session) (Executor.seq_scan "users" 0)
      (row 3 "c" none ∷ row 1 "a" none ∷ row 0 "z" none ∷ []) 2 1 0 refl
