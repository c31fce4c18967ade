-- ===== src/Handler/Isolation.antt =====
-- What a statement of one session does to the transactions of the others, in src/handler.rs.
use text.Mathlib.Text.{starts_with}
use mathlib.Core.Option.{some-injective}
use volcano_db.Base.{
  ℕ, ◌+◌, ◌<◌, ◌≤◌, ◌^◌, ◌≡◌, ◌≢◌, refl, sym, ◌∙◌, ◌⊎◌, String, some, List, ◌==◌, string_eq, nat_eq,
  arith, Bool-cases, Option-cases, inl, inr, ◌||◌,
}
use volcano_db.HashMap
use volcano_db.HashMap.{get-insert}
use volcano_db.Platform.{Platform}
use volcano_db.Outcome.{Outcome, ok, stop}
use volcano_db.Text.{trim, eq_ignore_ascii_case}
use volcano_db.Catalog.{Schema, get_schema}
use volcano_db.Storage.{Value}
use volcano_db.Planner.Ast.{Statement}
use volcano_db.Planner.Expr.{Expr}
use volcano_db.Planner.BindExpr.{SqlStatement, create_table, insert, query}
use volcano_db.Planner.BindQuery.{bind_statement}
use volcano_db.Tx.Records.{active, committed, rolled_back, Serde}
use volcano_db.Tx.Manager.{TransactionManager, record_insert, begin}
use volcano_db.Tx.Log.{commit_lem, rollback_lem}
use volcano_db.Session.{SessionState}
use volcano_db.Handler.Rows.{Inserting, insert_row}
use volcano_db.Handler.Defs.{
  DatabaseState, handle_begin, handle_commit, handle_rollback, handle_create, handle_insert,
  insert_into, handle_query, handle_sql, inner_handle, handle_statement, Handled,
}
use volcano_db.Handler.Rollback.{insert_rows_induction}

module _ ⦃p : Platform⦄ where
  -- The session's transaction, if it has one, is active and was handed out.
  abbrev pub Holds : SessionState → TransactionManager → Type 0
  Holds session m =
      (t : ℕ)
      → session.current_tx_id ≡ some t
      → (HashMap.get m.statuses t ≡ some active) × (t < m.next_tx_id)

  -- The session holds its transaction afterwards, the active transactions of the others still are,
  -- and the session has its transaction from before or a new one.
  pub record Isolates (db : DatabaseState) (session : SessionState) (m : TransactionManager)
      (session' : SessionState) : Type 0 where
    pub holds : Holds session' m
    pub others :
        (t : ℕ)
        → session.current_tx_id ≢ some t
        → t < db.tx_mgr.next_tx_id
        → HashMap.get db.tx_mgr.statuses t ≡ some active
        → HashMap.get m.statuses t ≡ some active
    pub origin :
        (t : ℕ)
        → session'.current_tx_id ≡ some t
        → (session.current_tx_id ≡ some t) ⊎ (db.tx_mgr.next_tx_id ≡ t)
    pub grows : db.tx_mgr.next_tx_id ≤ m.next_tx_id
    pub slowly : m.next_tx_id ≤ db.tx_mgr.next_tx_id + 1

  module _ (db : DatabaseState) (session : SessionState) (own : Holds session db.tx_mgr) where
    -- Where neither a status nor the next id changes.
    pub same-Isolates :
        (m : TransactionManager) (session' : SessionState)
        → m.statuses ≡ db.tx_mgr.statuses
        → m.next_tx_id ≡ db.tx_mgr.next_tx_id
        → session'.current_tx_id ≡ session.current_tx_id
        → Isolates db session m session'
    same-Isolates m session' e n f = record {
      holds = λ t h. rw (e, n) (own t (sym f ∙ h));
      others = λ t ne lt h. rw e h;
      origin = λ t h. inl (sym f ∙ h);
      grows = omega (arith, n);
      slowly = omega (arith, n);
    }

    begin-Isolates :
        db.tx_mgr.next_tx_id + 1 < 2 ^ 64
        → let (o, db', session') = handle_begin db session in
          Isolates db session db'.tx_mgr session'
    unfolding handle_begin begin
    begin-Isolates lt = elim (Option-cases (session.current_tx_id)) [
      | inr (tx, e) ↦ simp (e, handle_begin) (same-Isolates db.tx_mgr session refl refl refl)
      | inl e ↦
          rw (e, handle_begin)
            (record {
              holds = λ t h.
                  let new = some-injective _ _ h in
                  ground (arith, get-insert db.tx_mgr.statuses db.tx_mgr.next_tx_id active t, new);
              others = λ t ne below h.
                  ground (arith, get-insert db.tx_mgr.statuses db.tx_mgr.next_tx_id active t);
              origin = λ t h. inr (some-injective _ _ h);
              grows = omega arith;
              slowly = omega arith;
            })
    ]

    module _ ⦃serde : Serde⦄ where
      commit-Isolates :
          let (o, db', session') = handle_commit db session in
          Isolates db session db'.tx_mgr session'
      unfolding handle_commit
      commit-Isolates = elim (Option-cases (session.current_tx_id)) [
        | inl e ↦ simp (e, handle_commit) (same-Isolates db.tx_mgr session refl refl refl)
        | inr (tx, e) ↦
            rw (e, handle_commit, commit_lem)
              (record {
                holds = λ t h. cc;
                others =
                    λ t ne below h. ground (arith, get-insert db.tx_mgr.statuses tx committed t, e);
                origin = λ t h. cc;
                grows = omega arith;
                slowly = omega arith;
              })
      ]

      rollback-Isolates :
          let (o, db', session') = handle_rollback db session in
          Isolates db session db'.tx_mgr session'
      unfolding handle_rollback
      rollback-Isolates = elim (Option-cases (session.current_tx_id)) [
        | inl e ↦ simp (e, handle_rollback) (same-Isolates db.tx_mgr session refl refl refl)
        | inr (tx, e) ↦
            rw (e, handle_rollback, rollback_lem)
              (record {
                holds = λ t h. cc;
                others = λ t ne below h.
                    ground (arith, get-insert db.tx_mgr.statuses tx rolled_back t, e);
                origin = λ t h. cc;
                grows = omega arith;
                slowly = omega arith;
              })
      ]

      -- The manager in the loop of INSERT.
      abbrev KeepsStatuses : Inserting → Type 0
      KeepsStatuses st =
          (st.tx_mgr.statuses ≡ db.tx_mgr.statuses) × (st.tx_mgr.next_tx_id ≡ db.tx_mgr.next_tx_id)

      insert_row-KeepsStatuses :
          (name : String) (st : Inserting) (vals : List Value)
          → KeepsStatuses st
          → KeepsStatuses (insert_row name session.current_tx_id db.tx_mgr.scn st vals)
      unfolding insert_row record_insert
      insert_row-KeepsStatuses name st vals h = elim (Option-cases (session.current_tx_id)) [
        | inl e ↦ rw e h
        | inr (tx, e) ↦ rw e h
      ]

      insert-Isolates :
          (table_name : String) (rows : List (List Expr))
          → let (o, db', session') = handle_insert db session table_name rows in
            Isolates db session db'.tx_mgr session'
      unfolding handle_insert insert_into
      insert-Isolates table_name rows =
          elim (Option-cases (get_schema db.catalog (p.to_lowercase table_name))) [
            | inl e ↦ rw (e, handle_insert) (same-Isolates db.tx_mgr session refl refl refl)
            | inr (s, e) ↦ elim (Option-cases (HashMap.get db.tables (p.to_lowercase table_name))) [
              | inl f ↦ rw (e, f, handle_insert) (same-Isolates db.tx_mgr session refl refl refl)
              | inr (old, f) ↦
                  rw (e, f, handle_insert)
                    (let (h, n) =
                        insert_rows_induction 0 (p.to_lowercase table_name) session.current_tx_id
                          db.tx_mgr.scn KeepsStatuses s
                          (insert_row-KeepsStatuses (p.to_lowercase table_name)) rows _
                          (refl, refl) in
                      same-Isolates _ session h n refl)
            ]
          ]

      create-Isolates :
          (table_name : String) (s : Schema)
          → let (o, db', session') = handle_create db session table_name s in
            Isolates db session db'.tx_mgr session'
      unfolding handle_create
      create-Isolates table_name s =
          elim (Option-cases (get_schema db.catalog (p.to_lowercase table_name))) [
            | inl e ↦ rw (e, handle_create) (same-Isolates db.tx_mgr session refl refl refl)
            | inr (t, e) ↦ rw (e, handle_create) (same-Isolates db.tx_mgr session refl refl refl)
          ]

      sql-Isolates :
          (fuel : ℕ) (stmt : SqlStatement)
          → let (o, db', session') = handle_sql fuel db session stmt in
            Isolates db session db'.tx_mgr session'
      unfolding handle_sql handle_query
      sql-Isolates fuel (create_table name s) = create-Isolates name s
      sql-Isolates fuel (insert name rows) = insert-Isolates name rows
      sql-Isolates fuel (query plan) = same-Isolates _ _ refl refl refl

      module _ (parse_sql : String → Outcome (List Statement)) (fuel : ℕ)
          (lt : db.tx_mgr.next_tx_id + 1 < 2 ^ 64) where
        pub inner_handle-Isolates :
            (sql : String)
            → let (o, db', session') = inner_handle parse_sql fuel db session sql in
              Isolates db session db'.tx_mgr session'
        unfolding inner_handle
        inner_handle-Isolates sql =
            let upper = p.to_uppercase (trim sql) in
            elim (Bool-cases (starts_with upper "BEGIN" || starts_with upper "START TRANSACTION")) [
              | inl b ↦ rw (b, inner_handle) (begin-Isolates lt)
              | inr nb ↦ elim (Bool-cases (upper == "COMMIT")) [
                | inl c ↦ rw (nb, c, inner_handle) commit-Isolates
                | inr nc ↦ elim (Bool-cases (upper == "ROLLBACK")) [
                  | inl r ↦ rw (nb, nc, r, inner_handle) rollback-Isolates
                  | inr nr ↦
                      rw (nb, nc, nr, inner_handle)
                        (bound (bind_statement parse_sql sql db.catalog))
                ]
              ]
            ]
          where
            bound :
                (o : Outcome SqlStatement)
                → let (o', db', session') = elim o as (λ _. Handled) [
                  | stop x ↦ (stop x, db, session)
                  | ok stmt ↦ handle_sql fuel db session stmt
                ] in
                  Isolates db session db'.tx_mgr session'
            bound (stop x) = same-Isolates _ _ refl refl refl
            bound (ok stmt) = sql-Isolates fuel stmt

        -- Where the id counter is not at its end and the session's transaction, if it has one, is
        -- active and was handed out, whatever text a statement has: so it is afterwards, the
        -- session's transaction is the one from before or new, and the active transactions of
        -- others still are active.
        pub handle_statement-Isolates :
            (sql : String)
            → let (r, db', session') = handle_statement parse_sql fuel db session sql in
              Isolates db session db'.tx_mgr session'
        unfolding handle_statement
        handle_statement-Isolates sql =
            elim (Bool-cases (eq_ignore_ascii_case (trim sql) "/crash")) [
              | inl c ↦ rw (c, handle_statement) (same-Isolates _ _ refl refl refl)
              | inr nc ↦ elim (Bool-cases (eq_ignore_ascii_case (trim sql) "/status")) [
                | inl s ↦ rw (nc, s, handle_statement) (same-Isolates _ _ refl refl refl)
                | inr ns ↦ rw (nc, ns, handle_statement) (inner_handle-Isolates sql)
              ]
            ]
