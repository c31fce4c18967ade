-- ===== src/Handler/Inserting.antt =====
-- INSERT of src/handler.rs: which rows it appends and logs, also where it ends with an error.
use mathlib.Core.List.{append_assoc, append-nil}
use volcano_db.Base.{
  ℕ, ◌+◌, ◌≡◌, refl, sym, ◌∙◌, ap, String, Option, none, some, List, [], ◌∷◌, ◌++◌, map, string_eq,
  length, length-append, if◌then◌else◌, ◌==◌,
}
use volcano_db.HashMap
use volcano_db.HashMap.{get-insert}
use volcano_db.Platform.{Platform}
use volcano_db.Outcome.{Outcome, ok, stop, ◌>>=◌}
use volcano_db.Catalog.{Schema, get_schema}
use volcano_db.Storage.{Value, Tuple, tuple_with_meta}
use volcano_db.Planner.Expr.{Expr}
use volcano_db.Tx.Records.{RedoRecord}
use volcano_db.Tx.Manager.{record_insert}
use volcano_db.Session.{SessionState}
use volcano_db.Handler.Rows.{Inserting, insert_row, insert_rows, checked_row}
use volcano_db.Handler.Defs.{DatabaseState, handle_insert, insert_into, inserted}

module _ ⦃p : Platform⦄ where
  -- The values of the rows before the first one that is refused.
  abbrev pub accepted : Schema → List (List Expr) → List (List Value)
  accepted s [] = []
  accepted s (row ∷ rest) =
      let later = accepted s rest in
      elim (checked_row s row) [ stop x ↦ [] | ok vals ↦ vals ∷ later ]

  -- How many rows there are, counted from `n`, or why the first refused row is refused.
  abbrev pub count_rows : Schema → ℕ → List (List Expr) → Outcome ℕ
  count_rows s n [] = ok n
  count_rows s n (row ∷ rest) =
      let later = count_rows s (n + 1) rest in
      elim (checked_row s row) [ stop x ↦ stop x | ok vals ↦ later ]

  -- The redo records of rows that stand in the table from position `i` on.
  abbrev pub redo_of : Option ℕ → ℕ → String → ℕ → List (List Value) → List RedoRecord
  redo_of none scn name i rows = []
  redo_of (some tx) scn name i [] = []
  redo_of (some tx) scn name i (vals ∷ rest) =
      RedoRecord.insert tx scn name vals i ∷ redo_of (some tx) scn name (i + 1) rest

  -- What the loop of INSERT leaves, from `st` on.
  record Appends (s : Schema) (name : String) (tid : Option ℕ) (scn : ℕ) (st : Inserting)
      (rows : List (List Expr)) (o : Outcome ℕ) (st' : Inserting) : Type 0 where
    pub outcome : o ≡ count_rows s st.count rows
    pub table : st'.table ≡ st.table ++ map (λ vals. tuple_with_meta vals tid scn) (accepted s rows)
    pub redo :
        st'.tx_mgr.redo_buffer
        ≡ st.tx_mgr.redo_buffer
          ++ redo_of tid st.tx_mgr.scn name (length st.table) (accepted s rows)

  module _ (s : Schema) (name : String) (tid : Option ℕ) (scn : ℕ) where
    redo-insert_row :
        (st : Inserting) (vals : List Value) (rest : List (List Value))
        → let st' = insert_row name tid scn st vals in
          st'.tx_mgr.redo_buffer ++ redo_of tid st'.tx_mgr.scn name (length st'.table) rest
          ≡ st.tx_mgr.redo_buffer ++ redo_of tid st.tx_mgr.scn name (length st.table) (vals ∷ rest)
    unfolding insert_row record_insert
    redo-insert_row st vals rest = go tid
      where
        go :
            (tid : Option ℕ)
            → let st' = insert_row name tid scn st vals in
              st'.tx_mgr.redo_buffer ++ redo_of tid st'.tx_mgr.scn name (length st'.table) rest
              ≡ st.tx_mgr.redo_buffer
                ++ redo_of tid st.tx_mgr.scn name (length st.table) (vals ∷ rest)
        go none = refl
        go (some tx) =
            rw (length-append st.table (tuple_with_meta vals (some tx) scn ∷ []))
              (append_assoc st.tx_mgr.redo_buffer _ _)

    redo-none :
        (buffer : List RedoRecord) (now i : ℕ) → buffer ≡ buffer ++ redo_of tid now name i []
    redo-none buffer now i = go tid
      where
        go : (tid : Option ℕ) → buffer ≡ buffer ++ redo_of tid now name i []
        go none = sym (append-nil buffer)
        go (some tx) = sym (append-nil buffer)

    insert_rows-Appends :
        (rows : List (List Expr)) (st : Inserting)
        → let (o, st') = insert_rows s name tid scn st rows in Appends s name tid scn st rows o st'
    unfolding insert_rows insert_row
    insert_rows-Appends [] st = record {
      outcome = refl;
      table = sym (append-nil st.table);
      redo = redo-none st.tx_mgr.redo_buffer st.tx_mgr.scn (length st.table);
    }
    insert_rows-Appends (row ∷ rest) st =
        go (checked_row s row) refl
          (λ vals. insert_rows-Appends rest (insert_row name tid scn st vals))
      where
        go :
            (o : Outcome (List Value))
            → checked_row s row ≡ o
            → ((vals : List Value)
                → let st' = insert_row name tid scn st vals in
                  let r = insert_rows s name tid scn st' rest in
                  Appends s name tid scn st' rest r.0 r.1)
            → let r = insert_rows s name tid scn st (row ∷ rest) in
              Appends s name tid scn st (row ∷ rest) r.0 r.1
        go (stop x) e later = record {
          outcome = rw (count_rows, e, insert_rows) refl;
          table = rw (accepted, e, insert_rows) (sym (append-nil st.table));
          redo =
              rw (accepted, e, insert_rows)
                (redo-none st.tx_mgr.redo_buffer st.tx_mgr.scn (length st.table));
        }
        go (ok vals) e later = record {
          outcome = rw (count_rows, e, insert_rows) (later vals).outcome;
          table = rw (accepted, e, insert_rows) ((later vals).table ∙ append_assoc st.table _ _);
          redo =
              rw (accepted, e, insert_rows)
                ((later vals).redo ∙ redo-insert_row st vals (accepted s rest));
        }

  -- An INSERT into a table that exists appends the rows before the first one that is refused, and
  -- no other, at the end of the table, with the session's transaction and the current SCN; it
  -- leaves every other table as it was, appends the redo records of just these rows, with the
  -- positions that they have, when the session is in a transaction, and none otherwise; and it
  -- answers with the number of rows, or with the refusal of the first refused row, in which case
  -- the rows before it stay.
  pub handle_insert_lem :
      (db : DatabaseState) (session : SessionState) (table_name : String) (rows : List (List Expr))
      (s : Schema) (table : List Tuple)
      → get_schema db.catalog (p.to_lowercase table_name) ≡ some s
      → HashMap.get db.tables (p.to_lowercase table_name) ≡ some table
      → let (o, db', session') = handle_insert db session table_name rows in
        let name = p.to_lowercase table_name in
        let tx = session.current_tx_id in
        (o ≡ (count_rows s 0 rows >>= λ n. ok (inserted n)))
        × ((other : String)
            → HashMap.get db'.tables other ≡ (
                if name == other
                then some
                    (table ++ map (λ vals. tuple_with_meta vals tx db.tx_mgr.scn) (accepted s rows))
                else HashMap.get db.tables other))
        × (db'.tx_mgr.redo_buffer
            ≡ db.tx_mgr.redo_buffer
              ++ redo_of tx db.tx_mgr.scn name (length table) (accepted s rows))
  unfolding handle_insert insert_into
  handle_insert_lem db session table_name rows s table known found =
      let st : Inserting = record { table = table; tx_mgr = db.tx_mgr; count = 0 } in
      let a =
        insert_rows-Appends s (p.to_lowercase table_name) session.current_tx_id db.tx_mgr.scn rows
          st in
      rw (known, found, handle_insert)
        (
          ap (λ o. o >>= λ n. ok (inserted n)) a.outcome,
          λ other. get-insert db.tables (p.to_lowercase table_name) _ other ∙ rw a.table refl,
          a.redo,
        )
