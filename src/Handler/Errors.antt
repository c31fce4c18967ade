-- ===== src/Handler/Errors.antt =====
-- Statements of src/handler.rs that fail.
use volcano_db.Base.{
  ℕ, ◌≡◌, ◌≢◌, refl, ap, String, List, ◌==◌, string_eq, nat_eq, Bool-cases, Option-cases, inl, inr,
  ◌||◌,
}
use text.Mathlib.Text.{starts_with}
use volcano_db.Platform.{Platform}
use volcano_db.Outcome.{Outcome, Stop, ok, stop}
use volcano_db.Text.{trim}
use volcano_db.Catalog.{Schema, get_schema}
use volcano_db.Planner.Ast.{Statement}
use volcano_db.Planner.Expr.{Expr}
use volcano_db.Planner.BindExpr.{SqlStatement, create_table, insert, query}
use volcano_db.Planner.BindQuery.{bind_statement}
use volcano_db.Tx.Records.{Serde}
use volcano_db.Session.{SessionState}
use volcano_db.Handler.Defs.{
  DatabaseState, handle_begin, handle_commit, handle_rollback, handle_create, handle_query,
  handle_sql, inner_handle, Handled,
}

module _ ⦃p : Platform⦄ ⦃serde : Serde⦄ (db : DatabaseState) (session : SessionState) where
  -- The database and the session's transaction are as before.
  abbrev Untouched : Handled → Type 0
  Untouched h = (h.1 ≡ db) × (h.2.current_tx_id ≡ session.current_tx_id)

  -- Where the result is no success, nothing has happened.
  abbrev IsAtomic : Handled → Type 0
  IsAtomic h = (x : Stop) → h.0 ≡ stop x → Untouched h

  begin-IsAtomic : IsAtomic (handle_begin db session)
  unfolding handle_begin
  begin-IsAtomic = elim (Option-cases (session.current_tx_id)) [
    | inl e ↦ rw (e, handle_begin) (λ x h. cc)
    | inr (tx, e) ↦ rw (e, handle_begin) (λ x h. (refl, e))
  ]

  commit-IsAtomic : IsAtomic (handle_commit db session)
  unfolding handle_commit
  commit-IsAtomic = elim (Option-cases (session.current_tx_id)) [
    | inl e ↦ rw (e, handle_commit) (λ x h. (refl, e))
    | inr (tx, e) ↦ rw (e, handle_commit) (λ x h. cc)
  ]

  rollback-IsAtomic : IsAtomic (handle_rollback db session)
  unfolding handle_rollback
  rollback-IsAtomic = elim (Option-cases (session.current_tx_id)) [
    | inl e ↦ rw (e, handle_rollback) (λ x h. (refl, e))
    | inr (tx, e) ↦ rw (e, handle_rollback) (λ x h. cc)
  ]

  create-IsAtomic :
      (table_name : String) (s : Schema) → IsAtomic (handle_create db session table_name s)
  unfolding handle_create
  create-IsAtomic table_name s =
      elim (Option-cases (get_schema db.catalog (p.to_lowercase table_name))) [
        | inl e ↦ rw (e, handle_create) (λ x h. cc)
        | inr (t, e) ↦ rw (e, handle_create) (λ x h. (refl, refl))
      ]

  sql-IsAtomic :
      (fuel : ℕ) (stmt : SqlStatement)
      → ((name : String) (rows : List (List Expr)) → stmt ≢ insert name rows)
      → IsAtomic (handle_sql fuel db session stmt)
  unfolding handle_sql handle_query
  sql-IsAtomic fuel (create_table name s) other = create-IsAtomic name s
  sql-IsAtomic fuel (insert name rows) other = elim (other name rows refl) [ ]
  sql-IsAtomic fuel (query plan) other = λ x h. (refl, refl)

  -- A statement that is no INSERT and does not succeed, for an error or a panic, leaves the
  -- database as it was and the session in the transaction that it had.
  pub inner_handle_error :
      (parse_sql : String → Outcome (List Statement)) (fuel : ℕ) (sql : String) (x : Stop)
      → ((name : String) (rows : List (List Expr))
          → bind_statement parse_sql sql db.catalog ≢ ok (insert name rows))
      → (inner_handle parse_sql fuel db session sql).0 ≡ stop x
      → let (o, db', session') = inner_handle parse_sql fuel db session sql in
        (db' ≡ db) × (session'.current_tx_id ≡ session.current_tx_id)
  unfolding inner_handle
  inner_handle_error parse_sql fuel sql x other h = atomic x h
    where
      bound :
          (o : Outcome SqlStatement)
          → ((name : String) (rows : List (List Expr)) → o ≢ ok (insert name rows))
          → IsAtomic (elim o as (λ _. Handled) [
            | stop x ↦ (stop x, db, session)
            | ok stmt ↦ handle_sql fuel db session stmt
          ])
      bound (stop x) other = λ x h. (refl, refl)
      bound (ok stmt) other = sql-IsAtomic fuel stmt (λ name rows e. other name rows (ap ok e))

      atomic : IsAtomic (inner_handle parse_sql fuel db session sql)
      atomic =
          let upper = p.to_uppercase (trim sql) in
          elim (Bool-cases (starts_with upper "BEGIN" || starts_with upper "START TRANSACTION")) [
            | inl b ↦ rw (b, inner_handle) begin-IsAtomic
            | inr nb ↦ elim (Bool-cases (upper == "COMMIT")) [
              | inl c ↦ rw (nb, c, inner_handle) commit-IsAtomic
              | inr nc ↦ elim (Bool-cases (upper == "ROLLBACK")) [
                | inl r ↦ rw (nb, nc, r, inner_handle) rollback-IsAtomic
                | inr nr ↦
                    rw (nb, nc, nr, inner_handle)
                      (bound (bind_statement parse_sql sql db.catalog) other)
              ]
            ]
          ]
