-- ===== src/Handler/Rollback.antt =====
-- ROLLBACK of src/handler.rs: it removes just the transaction's own rows while its undo records still
-- name their positions, INSERT keeps that so for every transaction, and the ROLLBACK of another
-- transaction breaks it.
use mathlib.Core.List.{reverse, append-nil}
use mathlib.Core.Path.{subst}
use mathlib.Core.Option.{some-injective}
use volcano_db.Base.{
  ℕ, ◌≡◌, refl, ap, sym, ◌∙◌, Bool, false, not, String, Option, none, some, List, [], ◌∷◌, ◌++◌,
  arith, ◌==◌, string_eq, nat_eq, length, filter, if◌then◌else◌, Bool-cases, Option-cases,
  beq-cases, beq_refl, inl, inr,
}
use volcano_db.HashMap
use volcano_db.HashMap.{HashMap, get-insert}
use volcano_db.Platform.{Platform}
use volcano_db.Outcome.{Outcome, ok, stop}
use volcano_db.Catalog.{Schema, get_schema}
use volcano_db.Planner.Expr.{Expr}
use volcano_db.Storage.{Value, Tuple, tuple_with_meta}
use volcano_db.Tx.Records.{insert, Serde}
use volcano_db.Tx.Manager.{TransactionManager, segment, is_own, record_insert}
use volcano_db.Session.{SessionState}
use volcano_db.Handler.Rows.{Inserting, insert_row, insert_rows, checked_row, log_insert}
use volcano_db.Handler.Defs.{DatabaseState, insert_into, handle_rollback, handle_insert}
use volcano_db.Handler.Positions.{
  positions, positions-append, indices, indices-append, indices-reverse, undo_all-get, option_map,
  remove_each, remove_each-positions,
}

module _ ⦃p : Platform⦄ where
  -- The rows that a transaction has inserted.
  abbrev pub is_row_of : ℕ → Tuple → Bool
  is_row_of tx t = is_own tx t.tx_id

  -- In the table, the undo records of the transaction name just the positions of its rows.
  abbrev pub Tracks : ℕ → String → List Tuple → TransactionManager → Type 0
  Tracks tx name rows m = positions (is_row_of tx) rows ≡ indices name (segment m.undo_segments tx)

  module _ ⦃serde : Serde⦄ where
    -- A ROLLBACK whose undo records name the positions of the transaction's rows in a table removes
    -- these rows and no other, keeps the order of the rest, and ends the session's transaction.
    pub rollback_removes_own :
        (db : DatabaseState) (session : SessionState) (tx : ℕ) (name : String) (rows : List Tuple)
        → session.current_tx_id ≡ some tx
        → HashMap.get db.tables name ≡ some rows
        → Tracks tx name rows db.tx_mgr
        → let (o, db', session') = handle_rollback db session in
          (HashMap.get db'.tables name ≡ some (filter (λ t. not (is_row_of tx t)) rows))
          × (session'.current_tx_id ≡ none)
    unfolding handle_rollback
    rollback_removes_own db session tx name rows current found tracks = rw current (
      undo_all-get name (reverse (segment db.tx_mgr.undo_segments tx)) db.tables
          ∙ ap
              (option_map (λ ts.
                remove_each ts (indices name (reverse (segment db.tx_mgr.undo_segments tx)))))
              found
          ∙ ap (λ is. some (remove_each rows is))
              (indices-reverse name (segment db.tx_mgr.undo_segments tx) ∙ ap reverse (sym tracks))
          ∙ ap some (remove_each-positions (is_row_of tx) rows),
      refl,
    )

  -- The undo segment after a row is logged.
  segment-log_insert :
      (tx : ℕ) (tid : Option ℕ) (name : String) (vals : List Value) (i : ℕ) (m : TransactionManager)
      → segment (log_insert tid name vals i m).undo_segments tx ≡ (
          if is_own tx tid
          then segment m.undo_segments tx ++ (insert name i ∷ [])
          else segment m.undo_segments tx)
  unfolding record_insert
  segment-log_insert tx none name vals i m = refl
  segment-log_insert tx (some t) name vals i m =
      ground
        (arith, get-insert m.undo_segments t (segment m.undo_segments t ++ (insert name i ∷ [])) tx)

  module _ (tx : ℕ) (name : String) (tid : Option ℕ) (scn : ℕ) where
    insert_row-Tracks :
        (st : Inserting) (vals : List Value)
        → Tracks tx name st.table st.tx_mgr
        → let st' = insert_row name tid scn st vals in Tracks tx name st'.table st'.tx_mgr
    unfolding insert_row
    insert_row-Tracks st vals h =
        rw (segment-log_insert tx tid name vals (length st.table) st.tx_mgr) (
          positions-append (is_row_of tx) st.table (tuple_with_meta vals tid scn)
          ∙ elim (Bool-cases (is_own tx tid)) [
            | inl own ↦ rw (
              own,
              h,
              indices-append name (segment st.tx_mgr.undo_segments tx)
                  (insert name (length st.table) ∷ []),
              beq_refl name,
            )
            | inr other ↦ rw (other, h)
          ])

    -- What each inserted row keeps, the loop keeps, however it ends.
    pub insert_rows_induction :
        (P : Inserting → Type 0) (s : Schema)
        → ((st : Inserting) (vals : List Value) → P st → P (insert_row name tid scn st vals))
        → (rows : List (List Expr)) (st : Inserting) → P st
        → P (insert_rows s name tid scn st rows).1
    unfolding insert_rows
    insert_rows_induction P s keep [] st h = h
    insert_rows_induction P s keep (row ∷ rest) st h = go (checked_row s row) refl (λ vals.
        insert_rows_induction P s keep rest (insert_row name tid scn st vals) (keep st vals h))
      where
        go :
            (o : Outcome (List Value))
            → checked_row s row ≡ o
            → ((vals : List Value)
                → P (insert_rows s name tid scn (insert_row name tid scn st vals) rest).1)
            → P (insert_rows s name tid scn st (row ∷ rest)).1
        go (stop x) e later = rw (e, insert_rows) h
        go (ok vals) e later = rw (e, insert_rows) (later vals)

    -- A row for one table leaves the positions in every other one.
    abbrev Elsewhere : String → TransactionManager → Inserting → Type 0
    Elsewhere other m st =
        indices other (segment st.tx_mgr.undo_segments tx)
        ≡ indices other (segment m.undo_segments tx)

    insert_row-Elsewhere :
        (other : String) (m : TransactionManager)
        → (name == other) ≡ false
        → (st : Inserting) (vals : List Value) → Elsewhere other m st
        → Elsewhere other m (insert_row name tid scn st vals)
    unfolding insert_row
    insert_row-Elsewhere other m ne st vals h =
        rw (segment-log_insert tx tid name vals (length st.table) st.tx_mgr)
          (elim (Bool-cases (is_own tx tid)) [
            | inl own ↦
                rw
                  (
                    own,
                    indices-append other (segment st.tx_mgr.undo_segments tx)
                        (insert name (length st.table) ∷ []),
                    ne,
                  )
                  (append-nil (indices other (segment st.tx_mgr.undo_segments tx)) ∙ h)
            | inr not_own ↦ rw not_own h
          ])

  abbrev pub Tracked : ℕ → DatabaseState → Type 0
  Tracked tx db =
      (name : String) (ts : List Tuple)
      → HashMap.get db.tables name ≡ some ts
      → Tracks tx name ts db.tx_mgr

  insert_into-Tracked :
      (db : DatabaseState) (session : SessionState) (table : String) (s : Schema) (old : List Tuple)
      (rows : List (List Expr)) (tx : ℕ)
      → HashMap.get db.tables table ≡ some old
      → Tracked tx db
      → Tracked tx (insert_into db session table s old rows).1
  unfolding insert_into
  insert_into-Tracked db session table s old rows tx found h name ts e =
      elim (beq-cases table name) [
        | inl (t, same) ↦
            let stored : some st'.table ≡ some ts =
              sym (get-insert db.tables table st'.table name ∙ rw t refl) ∙ e in
            subst (λ n. Tracks tx n ts st'.tx_mgr) same
              (subst (λ ts. Tracks tx table ts st'.tx_mgr) (some-injective _ _ stored)
                (insert_rows_induction tx table session.current_tx_id db.tx_mgr.scn
                  (λ st. Tracks tx table st.table st.tx_mgr) s
                  (insert_row-Tracks tx table session.current_tx_id db.tx_mgr.scn) rows st
                  (h table old found)))
        | inr t ↦
            let kept : HashMap.get db.tables name ≡ some ts =
              sym (get-insert db.tables table st'.table name ∙ rw t refl) ∙ e in
            h name ts kept
            ∙ sym (
                insert_rows_induction tx table session.current_tx_id db.tx_mgr.scn
                  (Elsewhere tx table session.current_tx_id db.tx_mgr.scn name db.tx_mgr) s
                  (insert_row-Elsewhere tx table session.current_tx_id db.tx_mgr.scn name db.tx_mgr
                    t)
                  rows st refl)
      ]
    where
      st : Inserting
      st = record { table = old; tx_mgr = db.tx_mgr; count = 0 }

      st' : Inserting
      st' = (insert_rows s table session.current_tx_id db.tx_mgr.scn st rows).1

  -- When the undo records of a transaction name just the positions of its rows, in every table,
  -- they still do so after an INSERT by whatever session, into whatever table and however it ends.
  pub handle_insert-Tracked :
      (db : DatabaseState) (session : SessionState) (table_name : String) (rows : List (List Expr))
      (tx : ℕ)
      → Tracked tx db
      → Tracked tx (handle_insert db session table_name rows).1
  unfolding handle_insert
  handle_insert-Tracked db session table_name rows tx h =
      elim (Option-cases (get_schema db.catalog (p.to_lowercase table_name))) [
        | inl e ↦ rw (e, handle_insert) h
        | inr (s, e) ↦ elim (Option-cases (HashMap.get db.tables (p.to_lowercase table_name))) [
          | inl f ↦ rw (e, f, handle_insert) h
          | inr (old, f) ↦
              rw (e, f, handle_insert)
                (insert_into-Tracked db session (p.to_lowercase table_name) s old rows tx f h)
        ]
      ]
