-- ===== src/Tests/Statements.antt =====
-- COMMIT and a statement that fails on the fixture, and the theorems about them at these inputs.
use volcano_db.Base.{
  ℕ, ◌≤◌, ◌≡◌, ◌≢◌, refl, true, false, Option, none, some, String, List, [], ◌∷◌, arith,
}
use volcano_db.Outcome.{Outcome, ok, err, fail, parse_failed, table_exists}
use volcano_db.Planner.Ast.{TableFactor, SelectItem, GroupByExpr, SetExpr, Statement}
use volcano_db.Tx.Manager.{new_manager, begin, is_visible}
use volcano_db.Session.{SessionState}
use volcano_db.Handler.Defs.{
  DatabaseState, Response, unfinished, committed, inner_handle, handle_statement,
}
use volcano_db.Handler.Publishing.{commit_publishes}
use volcano_db.Executor.Yields.{Settles}
use volcano_db.Handler.Terminating.{handle_statement-Settles}
use volcano_db.Handler.Errors.{inner_handle_error}
use volcano_db.Tests.Evaluate.{everything}
use volcano_db.Tests.Fixture.{whole_numbers, short_lines, database, session}

abbrev in_first : SessionState
in_first = record session { current_tx_id = some 1 }

abbrev first_begun : DatabaseState
unfolding everything
first_begun = record database { tx_mgr = (begin (new_manager [] true)).1 }

commit_publishes_example :
    let (o, db', session') =
      inner_handle (λ sql. fail (parse_failed sql)) 0 first_begun in_first " COMMIT " in
    (o ≡ ok (committed 1))
    × (session'.current_tx_id ≡ none)
    × ((other : Option ℕ) (cr : ℕ)
        → db'.tx_mgr.scn ≤ cr
        → is_visible db'.tx_mgr (some 1) other cr ≡ true)
    × ((other : Option ℕ) (cr : ℕ)
        → cr ≤ first_begun.tx_mgr.scn
        → other ≢ some 1
        → is_visible db'.tx_mgr (some 1) other cr ≡ false)
unfolding everything
commit_publishes_example =
    commit_publishes (λ sql. fail (parse_failed sql)) 0 first_begun in_first " COMMIT " 1 refl refl
      (omega arith)

-- CREATE TABLE of a name that is taken
abbrev create_users : String → Outcome (List Statement)
create_users sql = ok (Statement.create_table "users" [] ∷ [])

inner_handle_error_example :
    let (o, db', session') =
      inner_handle create_users 0 first_begun in_first "CREATE TABLE users ()" in
    (db' ≡ first_begun) × (session'.current_tx_id ≡ some 1)
unfolding everything
inner_handle_error_example =
    inner_handle_error first_begun in_first create_users 0 "CREATE TABLE users ()"
      (err (table_exists "users")) (λ name rows e. cc) refl

-- SELECT * FROM users
abbrev select_users : String → Outcome (List Statement)
select_users sql = ok (
    Statement.query (record {
      body = SetExpr.select (record {
        from = record { relation = TableFactor.table "users" none; joins = [] } ∷ [];
        selection = none;
        projection = SelectItem.wildcard ∷ [];
        group_by = GroupByExpr.expressions [];
      });
      order_by = none;
      limit = none;
      offset = none;
    })
    ∷ [])

handle_statement-Settles_example :
    (r : Response × DatabaseState × SessionState) × Settles
      (λ f. handle_statement select_users f database session "SELECT * FROM users")
      r
    × (r.0 ≢ unfinished)
handle_statement-Settles_example =
    handle_statement-Settles database session select_users "SELECT * FROM users" tt
