-- ===== src/Handler/Rows.antt =====
-- src/handler.rs: how ROLLBACK and INSERT change the tables: the undo records of a transaction, and
-- the loop over the rows of an INSERT.
use volcano_db.Base.{
  ℕ, ◌+◌, String, Option, none, some, List, [], ◌∷◌, ◌++◌, ◌==◌, nat_eq, string_eq, length,
  remove_at, ltb, if◌then◌else◌,
}
use volcano_db.HashMap
use volcano_db.HashMap.{HashMap}
use volcano_db.Platform.{Platform}
use volcano_db.Outcome.{
  err, Outcome, ok, stop, fail, ◌>>=◌, column_count_mismatch, insert_value_failed,
}
use volcano_db.Catalog.{Schema}
use volcano_db.Storage.{Value, Tuple, plain_tuple, tuple_with_meta}
use volcano_db.Planner.Expr.{Expr, eval}
use volcano_db.Tx.Records.{UndoRecord}
use volcano_db.Tx.Manager
use volcano_db.Tx.Manager.{TransactionManager}

module _ ⦃p : Platform⦄ where
  abbrev pub Tables : Type 0
  Tables = HashMap String (List Tuple)

  -- One undo record of ROLLBACK.
  unfoldable pub undo_insert : Tables → UndoRecord → Tables
  undo_insert ts (UndoRecord.insert table_name row_idx) = elim (HashMap.get ts table_name) [
    | none ↦ ts
    | some table ↦
        if ltb row_idx (length table)
        then HashMap.insert ts table_name (remove_at table row_idx)
        else ts
  ]

  -- `for rec in undo_records.iter().rev()`, over the reversed list
  unfoldable pub undo_all : Tables → List UndoRecord → Tables
  unfolding undo_insert
  undo_all ts [] = ts
  undo_all ts (rec ∷ rest) = undo_all (undo_insert ts rec) rest

  abbrev pub context : {A : Type 0} → ℕ → Outcome A → Outcome A
  context i (ok a) = ok a
  context i (stop (err e)) = fail (insert_value_failed i)
  context i (stop s) = stop s

  -- The values of one row of INSERT, from position `i` on.
  unfoldable pub eval_row : ℕ → List Expr → Outcome (List Value)
  eval_row i [] = ok []
  eval_row i (e ∷ rest) = do
    v ← context i (eval e (plain_tuple []) (record { columns = [] }))
    vs ← eval_row (i + 1) rest
    ok (v ∷ vs)

  -- The `for` loop of INSERT: the table, the manager and the count are the variables that it changes.
  pub record Inserting : Type 0 where
    pub table : List Tuple
    pub tx_mgr : TransactionManager
    pub count : ℕ

  abbrev pub log_insert :
      Option ℕ → String → List Value → ℕ → TransactionManager → TransactionManager
  log_insert none name vals row_idx m = m
  log_insert (some tid) name vals row_idx m = Manager.record_insert m tid name vals row_idx

  unfoldable pub insert_row : String → Option ℕ → ℕ → Inserting → List Value → Inserting
  insert_row name tx_id scn st vals = record {
    table = st.table ++ (tuple_with_meta vals tx_id scn ∷ []);
    tx_mgr = log_insert tx_id name vals (length st.table) st.tx_mgr;
    count = st.count + 1;
  }

  abbrev pub checked_row : Schema → List Expr → Outcome (List Value)
  checked_row s row =
      if length row == length s.columns
      then eval_row 0 row
      else fail (column_count_mismatch (length s.columns) (length row))

  unfoldable pub insert_rows :
      Schema → String → Option ℕ → ℕ → Inserting → List (List Expr) → Outcome ℕ × Inserting
  insert_rows s name tx_id scn st [] = (ok st.count, st)
  insert_rows s name tx_id scn st (row ∷ rest) = elim (checked_row s row) [
    | stop x ↦ (stop x, st)
    | ok vals ↦ insert_rows s name tx_id scn (insert_row name tx_id scn st vals) rest
  ]
