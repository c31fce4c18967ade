-- ===== src/Handler/Defs.antt =====
-- src/handler.rs: `DatabaseState`, `handle_statement` and `inner_handle`. What a statement changed
-- before an error stays changed, so the states come back beside the error. Replies are data in place
-- of the formatted text. The parser of the sqlparser crate is a parameter, `parse_sql`.
use text.Mathlib.Text.{starts_with}
use mathlib.Core.List.{reverse}
use volcano_db.Base.{
  ℕ, Bool, true, false, String, Option, none, some, List, [], ◌∷◌, ◌++◌, map, ◌==◌, nat_eq,
  string_eq, ◌||◌, if◌then◌else◌, filter as keep_if,
}
use volcano_db.HashMap
use volcano_db.HashMap.{HashMap}
use volcano_db.Platform.{Platform}
use volcano_db.Outcome.{
  Error, Fault, err, panic, out_of_fuel, Outcome, ok, stop, fail, ◌>>=◌, transaction_active,
  no_active_transaction, table_exists, table_not_found, storage_not_initialized,
}
use volcano_db.Text.{trim, eq_ignore_ascii_case}
use volcano_db.Catalog.{Schema, Catalog, add_table, get_schema}
use volcano_db.Storage.{show_value, Tuple}
use volcano_db.Planner.Expr.{Expr}
use volcano_db.Planner.Plan.{LogicalPlan, schema}
use volcano_db.Planner.Ast.{Statement}
use volcano_db.Planner.BindExpr.{SqlStatement, create_table, insert, query}
use volcano_db.Planner.BindQuery.{bind_statement}
use volcano_db.Tx.Records.{TxStatus, active, Serde}
use volcano_db.Tx.Manager
use volcano_db.Tx.Manager.{TransactionManager}
use volcano_db.Session.{SessionState}
use volcano_db.Executor.Defs.{ExecutionContext, while_next}
use volcano_db.Executor.Init.{init}
use volcano_db.Executor.Build.{build_executor}
use volcano_db.Handler.Rows.{Tables, undo_all, Inserting, insert_rows}

pub data Reply : Type 0 where
  began committed rolled_back : ℕ → Reply
  table_created : String → Reply
  inserted : ℕ → Reply
  row_set : List String → List (List String) → Reply

pub data Response : Type 0 where
  reply : Reply → Response
  error : Error → Response
  -- session_id, tx_id, cr_scn, global_scn, active_txs
  status : ℕ → Option ℕ → ℕ → ℕ → List ℕ → Response
  crashed : Response
  panicked : Fault → Response
  unfinished : Response

module _ ⦃p : Platform⦄ where
  pub record DatabaseState : Type 0 where
    pub catalog : Catalog
    pub tables : Tables
    pub tx_mgr : TransactionManager

  abbrev pub push_shown : List (List String) → Tuple → Outcome (List (List String))
  push_shown out t = ok (out ++ (map show_value t.values ∷ []))

  abbrev pub context_of : DatabaseState → SessionState → ExecutionContext
  context_of db session = record {
    tables = db.tables;
    tx_mgr = db.tx_mgr;
    session_tx_id = session.current_tx_id;
    cr_scn = session.cr_scn;
  }

  -- The `Query` arm, after `cr_scn` is set.
  unfoldable pub run_query : ℕ → DatabaseState → SessionState → LogicalPlan → Outcome Reply
  run_query fuel db session plan = do
    ex ← build_executor plan db.catalog
    ex' ← init fuel (context_of db session) ex
    s ← schema plan db.catalog
    (rows, rest) ← while_next fuel (context_of db session) push_shown [] ex'
    ok (row_set (map (λ c. c.name) s.columns) rows)

  abbrev pub Handled : Type 0
  Handled = Outcome Reply × DatabaseState × SessionState

  unfoldable pub handle_create : DatabaseState → SessionState → String → Schema → Handled
  handle_create db session table_name s =
      let name_lower = p.to_lowercase table_name in
      elim (get_schema db.catalog name_lower) [
        | some _ ↦ (fail (table_exists table_name), db, session)
        | none ↦ (
          ok (table_created table_name),
          record db {
            catalog = add_table db.catalog name_lower s;
            tables = elim (HashMap.get db.tables name_lower) [
              | some _ ↦ db.tables
              | none ↦ HashMap.insert db.tables name_lower []
            ];
          },
          session,
        )
      ]

  -- The rest of the `Insert` arm, once the schema and the table are found.
  unfoldable pub insert_into :
      DatabaseState → SessionState → String → Schema → List Tuple → List (List Expr) → Handled
  insert_into db session name_lower s table rows =
      let st : Inserting = record { table = table; tx_mgr = db.tx_mgr; count = 0 } in
      let (o, st') = insert_rows s name_lower session.current_tx_id db.tx_mgr.scn st rows in
      (
        o >>= λ n. ok (inserted n),
        record db { tables = HashMap.insert db.tables name_lower st'.table; tx_mgr = st'.tx_mgr },
        session,
      )

  unfoldable pub handle_insert : DatabaseState → SessionState → String → List (List Expr) → Handled
  handle_insert db session table_name rows =
      let name_lower = p.to_lowercase table_name in
      elim (get_schema db.catalog name_lower) [
        | none ↦ (fail (table_not_found table_name), db, session)
        | some s ↦ elim (HashMap.get db.tables name_lower) [
          | none ↦ (fail (storage_not_initialized table_name), db, session)
          | some table ↦ insert_into db session name_lower s table rows
        ]
      ]

  unfoldable pub handle_query : ℕ → DatabaseState → SessionState → LogicalPlan → Handled
  unfolding run_query
  handle_query fuel db session plan =
      let session' = record session { cr_scn = db.tx_mgr.scn } in
      (run_query fuel db session' plan, db, session')

  unfoldable pub handle_sql : ℕ → DatabaseState → SessionState → SqlStatement → Handled
  unfolding handle_create handle_insert handle_query
  handle_sql fuel db session (create_table name s) = handle_create db session name s
  handle_sql fuel db session (insert name rows) = handle_insert db session name rows
  handle_sql fuel db session (query plan) = handle_query fuel db session plan

  -- BEGIN
  unfoldable pub handle_begin : DatabaseState → SessionState → Handled
  handle_begin db session = elim (session.current_tx_id) [
    | some _ ↦ (fail transaction_active, db, session)
    | none ↦
        let (tx_id, m) = Manager.begin db.tx_mgr in
        (ok (began tx_id), record db { tx_mgr = m }, record session { current_tx_id = some tx_id })
  ]

  abbrev pub respond : Outcome Reply → Response
  respond (ok r) = reply r
  respond (stop (err e)) = error e
  respond (stop (panic f)) = panicked f
  respond (stop out_of_fuel) = unfinished

  abbrev pub is_active : TxStatus → Bool
  is_active active = true
  is_active _ = false

  abbrev pub active_txs : HashMap ℕ TxStatus → List ℕ
  active_txs statuses =
      keep_if (λ k. elim (HashMap.get statuses k) [ none ↦ false | some s ↦ is_active s ])
        (p.hash_order_ids (HashMap.keys statuses))

  module _ ⦃serde : Serde⦄ where
    -- COMMIT
    unfoldable pub handle_commit : DatabaseState → SessionState → Handled
    handle_commit db session = elim (session.current_tx_id) [
      | none ↦ (fail no_active_transaction, db, session)
      | some tx_id ↦ (
        ok (committed tx_id),
        record db { tx_mgr = Manager.commit db.tx_mgr tx_id },
        record session { current_tx_id = none },
      )
    ]

    -- ROLLBACK
    unfoldable pub handle_rollback : DatabaseState → SessionState → Handled
    handle_rollback db session = elim (session.current_tx_id) [
      | none ↦ (fail no_active_transaction, db, session)
      | some tx_id ↦
          let undo_records = Manager.segment db.tx_mgr.undo_segments tx_id in
          let m = record db.tx_mgr {
            undo_segments = HashMap.remove db.tx_mgr.undo_segments tx_id;
          } in
          (
            ok (rolled_back tx_id),
            record db {
              tables = undo_all db.tables (reverse undo_records);
              tx_mgr = Manager.rollback m tx_id;
            },
            record session { current_tx_id = none },
          )
    ]

    module _ (parse_sql : String → Outcome (List Statement)) where
      unfoldable pub inner_handle : ℕ → DatabaseState → SessionState → String → Handled
      unfolding handle_begin handle_commit handle_rollback handle_sql
      inner_handle fuel db session sql =
          let upper = p.to_uppercase (trim sql) in
          if starts_with upper "BEGIN" || starts_with upper "START TRANSACTION"
          then handle_begin db session
          else if upper == "COMMIT"
          then handle_commit db session
          else if upper == "ROLLBACK"
          then handle_rollback db session
          else elim (bind_statement parse_sql sql db.catalog) [
            | stop x ↦ (stop x, db, session)
            | ok stmt ↦ handle_sql fuel db session stmt
          ]

      -- handle_statement
      unfoldable pub handle_statement :
          ℕ → DatabaseState → SessionState → String → Response × DatabaseState × SessionState
      unfolding inner_handle
      handle_statement fuel db session sql =
          let trimmed = trim sql in
          if eq_ignore_ascii_case trimmed "/crash"
          then (crashed, db, session)
          else if eq_ignore_ascii_case trimmed "/status"
          then (
            status session.session_id session.current_tx_id session.cr_scn db.tx_mgr.scn
                (active_txs db.tx_mgr.statuses),
            db,
            session,
          )
          else (let (o, db', session') = inner_handle fuel db session sql in
              (respond o, db', session'))
