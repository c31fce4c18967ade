-- ===== src/Handler/Terminating.antt =====
-- Statements of src/handler.rs terminate.
use text.Mathlib.Text.{starts_with}
use volcano_db.Base.{
  ℕ, ◌+◌, ◌≢◌, refl, ap, String, Option, List, [], ◌∷◌, ◌==◌, string_eq, nat_eq, length, Bool-cases,
  Option-cases, inl, inr, ◌||◌,
}
use volcano_db.HashMap
use volcano_db.Platform.{Platform}
use volcano_db.Outcome.{
  err, panic, out_of_fuel, Outcome, ok, stop, IsFinal, bind-IsFinal, if-IsFinal,
}
use volcano_db.Text.{trim, eq_ignore_ascii_case}
use volcano_db.Catalog.{Schema, get_schema}
use volcano_db.Storage.{Value, plain_tuple}
use volcano_db.Planner.Ast.{Statement}
use volcano_db.Planner.Expr.{Expr, eval}
use volcano_db.Planner.Plan.{LogicalPlan, schema}
use volcano_db.Planner.Final.{eval-IsFinal, schema-IsFinal}
use volcano_db.Planner.BindExpr.{SqlStatement, create_table, insert, query}
use volcano_db.Planner.BindQuery.{bind_statement}
use volcano_db.Planner.BindFinal.{bind_statement-IsFinal}
use volcano_db.Tx.Records.{Serde}
use volcano_db.Session.{SessionState}
use volcano_db.Executor.Build.{build_executor}
use volcano_db.Executor.Flow.{collect}
use volcano_db.Executor.Yields.{Settles}
use volcano_db.Executor.Final.{collect-IsFinal}
use volcano_db.Executor.Terminating.{meaning-IsFinal, build_executor-IsFinal}
use volcano_db.Handler.Rows.{context, eval_row, checked_row, Inserting, insert_row, insert_rows}
use volcano_db.Handler.Defs.{
  DatabaseState, Reply, Response, unfinished, Handled, context_of, handle_begin, handle_commit,
  handle_rollback, handle_create, handle_insert, insert_into, handle_query, handle_sql,
  inner_handle, handle_statement, respond,
}
use volcano_db.Handler.Query.{answer, run_query-eq-answer}

module _ ⦃p : Platform⦄ where
  answer-IsFinal :
      (db : DatabaseState) (session : SessionState) (plan : LogicalPlan)
      → IsFinal (answer db session plan)
  answer-IsFinal db session plan =
      bind-IsFinal (build_executor plan db.catalog) _ (build_executor-IsFinal plan db.catalog)
        (λ ex. meaning-IsFinal (context_of db session) ex _ (λ fl h.
          bind-IsFinal (schema plan db.catalog) _ (schema-IsFinal plan db.catalog)
            (λ s. bind-IsFinal (collect fl) _ (collect-IsFinal fl h) (λ ts. tt))))

  context-IsFinal : {A : Type 0} (i : ℕ) (o : Outcome A) → IsFinal o → IsFinal (context i o)
  context-IsFinal i (ok a) h = tt
  context-IsFinal i (stop (err e)) h = tt
  context-IsFinal i (stop (panic f)) h = tt
  context-IsFinal i (stop out_of_fuel) h = h

  eval_row-IsFinal : (es : List Expr) (i : ℕ) → IsFinal (eval_row i es)
  unfolding eval_row
  eval_row-IsFinal [] i = tt
  eval_row-IsFinal (e ∷ rest) i =
      let blank : Schema = record { columns = [] } in
      bind-IsFinal (context i (eval e (plain_tuple []) blank)) _
        (context-IsFinal i (eval e (plain_tuple []) blank) (eval-IsFinal e (plain_tuple []) blank))
        (λ v. bind-IsFinal (eval_row (i + 1) rest) _ (eval_row-IsFinal rest (i + 1)) (λ vs. tt))

  insert_rows-IsFinal :
      (rows : List (List Expr)) (s : Schema) (name : String) (tx : Option ℕ) (scn : ℕ)
      (st : Inserting)
      → IsFinal (insert_rows s name tx scn st rows).0
  unfolding insert_rows
  insert_rows-IsFinal [] s name tx scn st = tt
  insert_rows-IsFinal (row ∷ rest) s name tx scn st =
      checked (checked_row s row)
        (if-IsFinal (length row == length s.columns) _ _ (eval_row-IsFinal row 0) tt)
        (λ st'. insert_rows-IsFinal rest s name tx scn st')
    where
      checked :
          (o : Outcome (List Value))
          → IsFinal o
          → ((st' : Inserting) → IsFinal (insert_rows s name tx scn st' rest).0)
          → IsFinal
              (elim o as (λ _. Outcome ℕ × Inserting) [
                | stop x ↦ (stop x, st)
                | ok vals ↦ insert_rows s name tx scn (insert_row name tx scn st vals) rest
              ]).0
      checked (stop x) h later = h
      checked (ok vals) h later = later (insert_row name tx scn st vals)

  module _ (db : DatabaseState) (session : SessionState) where
    insert-IsFinal :
        (table_name : String) (rows : List (List Expr))
        → IsFinal (handle_insert db session table_name rows).0
    unfolding handle_insert insert_into
    insert-IsFinal table_name rows =
        elim (Option-cases (get_schema db.catalog (p.to_lowercase table_name))) [
          | inl e ↦ rw (e, handle_insert) tt
          | inr (s, e) ↦ elim (Option-cases (HashMap.get db.tables (p.to_lowercase table_name))) [
            | inl f ↦ rw (e, f, handle_insert) tt
            | inr (old, f) ↦
                rw (e, f, handle_insert)
                  (bind-IsFinal _ _
                    (insert_rows-IsFinal rows s (p.to_lowercase table_name) session.current_tx_id
                      db.tx_mgr.scn _)
                    (λ n. tt))
          ]
        ]

    create-IsFinal :
        (table_name : String) (s : Schema) → IsFinal (handle_create db session table_name s).0
    unfolding handle_create
    create-IsFinal table_name s =
        elim (Option-cases (get_schema db.catalog (p.to_lowercase table_name))) [
          | inl e ↦ rw (e, handle_create) tt
          | inr (t, e) ↦ rw (e, handle_create) tt
        ]

    begin-IsFinal : IsFinal (handle_begin db session).0
    unfolding handle_begin
    begin-IsFinal = elim (Option-cases (session.current_tx_id)) [
      | inl e ↦ rw (e, handle_begin) tt
      | inr (tx, e) ↦ rw (e, handle_begin) tt
    ]

    -- From some amount of fuel on a statement has one outcome, and it is no lack of fuel.
    abbrev Stops : (ℕ → Handled) → Type 0
    Stops call = (h : Handled) × Settles call h × IsFinal h.0

    at_any_fuel : (h : Handled) → IsFinal h.0 → Stops (λ f. h)
    at_any_fuel h k = (h, record { fuel = 0; at = λ f le. refl }, k)

    sql-Stops : (stmt : SqlStatement) → Stops (λ f. handle_sql f db session stmt)
    unfolding handle_sql handle_query
    sql-Stops (create_table name s) = at_any_fuel _ (create-IsFinal name s)
    sql-Stops (insert name rows) = at_any_fuel _ (insert-IsFinal name rows)
    sql-Stops (query plan) =
        let session' : SessionState = record session { cr_scn = db.tx_mgr.scn } in
        let settled = run_query-eq-answer db session' plan in
        (
          (answer db session' plan, db, session'),
          record {
            fuel = settled.fuel;
            at = λ f le. ap (λ o. (o, db, session')) (settled.at f le);
          },
          answer-IsFinal db session' plan,
        )

    module _ ⦃serde : Serde⦄ where
      commit-IsFinal : IsFinal (handle_commit db session).0
      unfolding handle_commit
      commit-IsFinal = elim (Option-cases (session.current_tx_id)) [
        | inl e ↦ rw (e, handle_commit) tt
        | inr (tx, e) ↦ rw (e, handle_commit) tt
      ]

      rollback-IsFinal : IsFinal (handle_rollback db session).0
      unfolding handle_rollback
      rollback-IsFinal = elim (Option-cases (session.current_tx_id)) [
        | inl e ↦ rw (e, handle_rollback) tt
        | inr (tx, e) ↦ rw (e, handle_rollback) tt
      ]

      module _ (parse_sql : String → Outcome (List Statement)) (sql : String)
          (parses : IsFinal (parse_sql sql)) where
        inner_handle-Stops : Stops (λ f. inner_handle parse_sql f db session sql)
        unfolding inner_handle
        inner_handle-Stops =
            let upper = p.to_uppercase (trim sql) in
            elim (Bool-cases (starts_with upper "BEGIN" || starts_with upper "START TRANSACTION")) [
              | inl b ↦ rw (b, inner_handle) (at_any_fuel _ begin-IsFinal)
              | inr nb ↦ elim (Bool-cases (upper == "COMMIT")) [
                | inl c ↦ rw (nb, c, inner_handle) (at_any_fuel _ commit-IsFinal)
                | inr nc ↦ elim (Bool-cases (upper == "ROLLBACK")) [
                  | inl r ↦ rw (nb, nc, r, inner_handle) (at_any_fuel _ rollback-IsFinal)
                  | inr nr ↦
                      rw (nb, nc, nr, inner_handle)
                        (bound (bind_statement parse_sql sql db.catalog)
                          (bind_statement-IsFinal parse_sql sql db.catalog parses))
                ]
              ]
            ]
          where
            bound :
                (o : Outcome SqlStatement)
                → IsFinal o
                → Stops (λ f. elim o as (λ _. Handled) [
                  | stop x ↦ (stop x, db, session)
                  | ok stmt ↦ handle_sql f db session stmt
                ])
            bound (stop x) h = at_any_fuel _ h
            bound (ok stmt) h = sql-Stops stmt

        respond_finished : (o : Outcome Reply) → IsFinal o → respond o ≢ unfinished
        respond_finished (ok r) h = λ e. cc
        respond_finished (stop (err x)) h = λ e. cc
        respond_finished (stop (panic f)) h = λ e. cc
        respond_finished (stop out_of_fuel) h = elim h [ ]

        -- Where the parser comes to an end on a text, so does the statement, whatever it is: from
        -- some amount of fuel on it has one response, database and session, and the response is not
        -- that the fuel ran out.
        pub handle_statement-Settles :
            (r : Response × DatabaseState × SessionState) × Settles
              (λ f. handle_statement parse_sql f db session sql)
              r
            × (r.0 ≢ unfinished)
        unfolding handle_statement
        handle_statement-Settles = elim (Bool-cases (eq_ignore_ascii_case (trim sql) "/crash")) [
          | inl c ↦ rw (c, handle_statement) (_, record { fuel = 0; at = λ f le. refl }, λ e. cc)
          | inr nc ↦ elim (Bool-cases (eq_ignore_ascii_case (trim sql) "/status")) [
            | inl s ↦
                rw (nc, s, handle_statement) (_, record { fuel = 0; at = λ f le. refl }, λ e. cc)
            | inr ns ↦
                let (h, settled, final) = inner_handle-Stops in
                rw (nc, ns, handle_statement)
                  (
                    (respond h.0, h.1, h.2),
                    record {
                      fuel = settled.fuel;
                      at = λ f le. ap (λ x. (respond x.0, x.1, x.2)) (settled.at f le);
                    },
                    respond_finished h.0 final,
                  )
          ]
        ]
