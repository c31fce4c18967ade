-- ===== src/Handler/Stepping.antt =====
-- `inner_handle` of src/handler.rs against the steps of the transaction manager.
use volcano_db.Base.{
  ℕ, ◌+◌, ◌<◌, ◌^◌, ◌≡◌, ◌∙◌, length, String, some, List, ◌==◌, string_eq, nat_eq, Bool-cases,
  Option-cases, inl, inr, ◌||◌,
}
use text.Mathlib.Text.{starts_with}
use volcano_db.HashMap
use volcano_db.Platform.{Platform}
use volcano_db.Outcome.{Outcome, ok, stop}
use volcano_db.Text.{trim, eq_ignore_ascii_case}
use volcano_db.Catalog.{Schema, get_schema}
use volcano_db.Storage.{Value}
use volcano_db.Planner.Expr.{Expr}
use volcano_db.Tx.Records.{active, Serde}
use volcano_db.Tx.Manager.{TransactionManager, record_insert}
use volcano_db.Tx.Steps.{Steps, here, next, begins, inserts, commits, rolls_back}
use volcano_db.Session.{SessionState}
use volcano_db.Handler.Rows.{Inserting, insert_row}
use volcano_db.Handler.Defs.{
  DatabaseState, handle_begin, handle_commit, handle_rollback, handle_create, handle_insert,
  insert_into, handle_query, handle_sql, inner_handle, handle_statement, Handled,
}
use volcano_db.Planner.Ast.{Statement}
use volcano_db.Planner.BindExpr.{SqlStatement, create_table, insert, query}
use volcano_db.Planner.BindQuery.{bind_statement}
use volcano_db.Handler.Rollback.{insert_rows_induction}

module _ ⦃p : Platform⦄ where
  -- The session's transaction, if it has one, is active.
  abbrev pub IsActive : SessionState → TransactionManager → Type 0
  IsActive session m =
      (tx : ℕ) → session.current_tx_id ≡ some tx → HashMap.get m.statuses tx ≡ some active

  -- Neither counter is at its end.
  abbrev pub HasRoom : TransactionManager → Type 0
  HasRoom m = (m.next_tx_id + 1 < 2 ^ 64) × (m.scn + 1 < 2 ^ 64)

module _ ⦃p : Platform⦄ ⦃serde : Serde⦄ where
  module _ (db : DatabaseState) (session : SessionState) (own : IsActive session db.tx_mgr) where
    begin-Steps : HasRoom db.tx_mgr → Steps db.tx_mgr (handle_begin db session).1.tx_mgr
    unfolding handle_begin
    begin-Steps (lt, _) = elim (Option-cases (session.current_tx_id)) [
      | inl e ↦ rw (e, handle_begin) (next here (begins lt))
      | inr (tx, e) ↦ rw (e, handle_begin) here
    ]

    commit-Steps : HasRoom db.tx_mgr → Steps db.tx_mgr (handle_commit db session).1.tx_mgr
    unfolding handle_commit
    commit-Steps (_, lt) = elim (Option-cases (session.current_tx_id)) [
      | inl e ↦ rw (e, handle_commit) here
      | inr (tx, e) ↦ rw (e, handle_commit) (next here (commits tx (own tx e) lt))
    ]

    rollback-Steps : Steps db.tx_mgr (handle_rollback db session).1.tx_mgr
    unfolding handle_rollback
    rollback-Steps = elim (Option-cases (session.current_tx_id)) [
      | inl e ↦ rw (e, handle_rollback) here
      | inr (tx, e) ↦ rw (e, handle_rollback) (next here (rolls_back tx (own tx e)))
    ]

    -- The manager in the loop of INSERT.
    abbrev Reached : Inserting → Type 0
    Reached st = Steps db.tx_mgr st.tx_mgr × IsActive session st.tx_mgr

    insert_row-Reached :
        (name : String) (st : Inserting) (vals : List Value)
        → Reached st
        → Reached (insert_row name session.current_tx_id db.tx_mgr.scn st vals)
    unfolding insert_row record_insert
    insert_row-Reached name st vals (steps, mine) = elim (Option-cases (session.current_tx_id)) [
      | inl e ↦ rw e (steps, λ t f. mine t (e ∙ f))
      | inr (tx, e) ↦
          rw e
            (next steps (inserts tx name vals (length st.table) (mine tx e)), λ t f. mine t (e ∙ f))
    ]

    insert-Steps :
        (table_name : String) (rows : List (List Expr))
        → Steps db.tx_mgr (handle_insert db session table_name rows).1.tx_mgr
    unfolding handle_insert insert_into
    insert-Steps table_name rows =
        elim (Option-cases (get_schema db.catalog (p.to_lowercase table_name))) [
          | inl e ↦ rw (e, handle_insert) here
          | inr (s, e) ↦ elim (Option-cases (HashMap.get db.tables (p.to_lowercase table_name))) [
            | inl f ↦ rw (e, f, handle_insert) here
            | inr (old, f) ↦
                rw (e, f, handle_insert)
                  (insert_rows_induction 0 (p.to_lowercase table_name) session.current_tx_id
                    db.tx_mgr.scn Reached s (insert_row-Reached (p.to_lowercase table_name)) rows _
                    (here, own)).0
          ]
        ]

    create-Steps :
        (table_name : String) (s : Schema)
        → Steps db.tx_mgr (handle_create db session table_name s).1.tx_mgr
    unfolding handle_create
    create-Steps table_name s =
        elim (Option-cases (get_schema db.catalog (p.to_lowercase table_name))) [
          | inl e ↦ rw (e, handle_create) here
          | inr (t, e) ↦ rw (e, handle_create) here
        ]

    sql-Steps :
        (fuel : ℕ) (stmt : SqlStatement)
        → Steps db.tx_mgr (handle_sql fuel db session stmt).1.tx_mgr
    unfolding handle_sql handle_query
    sql-Steps fuel (create_table name s) = create-Steps name s
    sql-Steps fuel (insert name rows) = insert-Steps name rows
    sql-Steps fuel (query plan) = here

    -- With the session's transaction active, if it has one, and with room in both counters,
    -- whatever text a statement has and however it ends, it takes the manager along steps only.
    pub inner_handle-Steps :
        (parse_sql : String → Outcome (List Statement)) (fuel : ℕ) (sql : String)
        → HasRoom db.tx_mgr
        → Steps db.tx_mgr (inner_handle parse_sql fuel db session sql).1.tx_mgr
    unfolding inner_handle
    inner_handle-Steps parse_sql fuel sql room =
        let upper = p.to_uppercase (trim sql) in
        elim (Bool-cases (starts_with upper "BEGIN" || starts_with upper "START TRANSACTION")) [
          | inl b ↦ rw (b, inner_handle) (begin-Steps room)
          | inr nb ↦ elim (Bool-cases (upper == "COMMIT")) [
            | inl c ↦ rw (nb, c, inner_handle) (commit-Steps room)
            | inr nc ↦ elim (Bool-cases (upper == "ROLLBACK")) [
              | inl r ↦ rw (nb, nc, r, inner_handle) rollback-Steps
              | inr nr ↦
                  rw (nb, nc, nr, inner_handle) (bound (bind_statement parse_sql sql db.catalog))
            ]
          ]
        ]
      where
        bound :
            (o : Outcome SqlStatement)
            → Steps db.tx_mgr
                (elim o as (λ _. Handled) [
                  | stop x ↦ (stop x, db, session)
                  | ok stmt ↦ handle_sql fuel db session stmt
                ]).1.tx_mgr
        bound (stop x) = here
        bound (ok stmt) = sql-Steps fuel stmt

    pub handle_statement-Steps :
        (parse_sql : String → Outcome (List Statement)) (fuel : ℕ) (sql : String)
        → HasRoom db.tx_mgr
        → Steps db.tx_mgr (handle_statement parse_sql fuel db session sql).1.tx_mgr
    unfolding handle_statement
    handle_statement-Steps parse_sql fuel sql room =
        elim (Bool-cases (eq_ignore_ascii_case (trim sql) "/crash")) [
          | inl c ↦ rw (c, handle_statement) here
          | inr nc ↦ elim (Bool-cases (eq_ignore_ascii_case (trim sql) "/status")) [
            | inl s ↦ rw (nc, s, handle_statement) here
            | inr ns ↦ rw (nc, ns, handle_statement) (inner_handle-Steps parse_sql fuel sql room)
          ]
        ]
