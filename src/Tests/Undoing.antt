-- ===== src/Tests/Undoing.antt =====
-- ROLLBACK and INSERT on the fixture, and the theorems about them at these inputs.
use volcano_db.Base.{
  String, if◌then◌else◌, ℕ, ◌≡◌, refl, arith, none, some, [], ◌∷◌, string_eq, nat_eq, sym, ◌∙◌,
  ◌==◌, Bool-cases, inl, inr, true,
}
use mathlib.Core.Path.{subst}
use mathlib.Core.Option.{some-injective}
use volcano_db.Handler.Positions.{positions}
use volcano_db.Base.Int.{pos}
use volcano_db.HashMap
use volcano_db.Storage.{tuple_with_meta, int, varchar}
use volcano_db.Planner.Expr.{const}
use volcano_db.Tx.Records.{RedoRecord, UndoRecord}
use volcano_db.Tx.Manager.{new_manager}
use volcano_db.Session.{SessionState}
use volcano_db.Handler.Defs.{DatabaseState, handle_rollback, handle_insert}
use volcano_db.Handler.Rollback.{is_row_of, Tracked, rollback_removes_own, handle_insert-Tracked}
use volcano_db.Handler.Inserting.{handle_insert_lem}
use volcano_db.Outcome.{fail, column_count_mismatch}
use volcano_db.Handler.Interleaved.{rollback_hits_other}
use volcano_db.Tx.Steps.{Steps}
use volcano_db.Handler.Stepping.{IsActive, inner_handle-Steps}
use volcano_db.Handler.Defs.{inner_handle}
use volcano_db.Tx.Manager.{begin}
use volcano_db.Tx.Records.{active}
use volcano_db.Outcome.{parse_failed}
use volcano_db.Tests.Evaluate.{everything}
use volcano_db.Tests.Fixture.{whole_numbers, short_lines, row, database, session, users_schema}

abbrev session_of : ℕ → SessionState
session_of tx = record session { current_tx_id = some tx }

-- Transactions 1, 2 and 3 have inserted a row each behind an older one.
abbrev three_inserts : DatabaseState
three_inserts = record database {
  tables =
      ("users", row 0 "z" none ∷ row 1 "a" (some 1) ∷ row 2 "b" (some 2) ∷ row 3 "c" (some 3) ∷ [])
      ∷ [];
  tx_mgr = record (new_manager [] true) {
    undo_segments =
        (1, UndoRecord.insert "users" 1 ∷ [])
        ∷ (2, UndoRecord.insert "users" 2 ∷ [])
        ∷ (3, UndoRecord.insert "users" 3 ∷ [])
        ∷ [];
  };
}

rollback_removes_own_example :
    (HashMap.get (handle_rollback three_inserts (session_of 2)).1.tables "users"
      ≡ some (row 0 "z" none ∷ row 1 "a" (some 1) ∷ row 3 "c" (some 3) ∷ []))
    × ((handle_rollback three_inserts (session_of 2)).2.current_tx_id ≡ none)
unfolding everything
rollback_removes_own_example =
    rollback_removes_own three_inserts (session_of 2) 2 "users"
      (row 0 "z" none ∷ row 1 "a" (some 1) ∷ row 2 "b" (some 2) ∷ row 3 "c" (some 3) ∷ []) refl refl
      refl

rollback_hits_other_example :
    HashMap.get
      (handle_rollback (handle_rollback three_inserts (session_of 1)).1 (session_of 2)).1.tables
      "users"
    ≡ some (row 0 "z" none ∷ row 2 "b" (some 2) ∷ [])
unfolding everything
rollback_hits_other_example =
    rollback_hits_other three_inserts (session_of 1) (session_of 2) 1 2 "users"
      (row 0 "z" none ∷ []) (row 1 "a" (some 1)) (row 2 "b" (some 2)) (row 3 "c" (some 3)) refl refl
      (omega arith) refl refl refl

abbrev empty_users : DatabaseState
empty_users = record database { tables = ("users", []) ∷ [] }

empty_users-Tracked : Tracked 1 empty_users
unfolding everything
empty_users-Tracked name ts e = elim (Bool-cases ("users" == name)) [
  | inl h ↦
      subst (λ ts. positions (is_row_of 1) ts ≡ []) (some-injective [] ts (sym (rw h refl) ∙ e))
        refl
  | inr h ↦ let impossible : none ≡ some ts = sym (rw h refl) ∙ e in cc
]

handle_insert-Tracked_example :
    Tracked 1
      (handle_insert empty_users
        (session_of 1)
        "users"
        ((const (int (pos 5)) ∷ const (varchar "e") ∷ []) ∷ [])).1
handle_insert-Tracked_example =
    handle_insert-Tracked empty_users (session_of 1) "users"
      ((const (int (pos 5)) ∷ const (varchar "e") ∷ []) ∷ []) 1 empty_users-Tracked

-- The second row has a value too few: the first one stays.
handle_insert_lem_example :
    let r =
      handle_insert empty_users
        (session_of 1)
        "users"
        ((const (int (pos 5)) ∷ const (varchar "e") ∷ []) ∷ (const (int (pos 6)) ∷ []) ∷ []) in
    (r.0 ≡ fail (column_count_mismatch 2 1))
    × ((other : String)
        → HashMap.get r.1.tables other ≡ (
            if "users" == other
            then some (tuple_with_meta (int (pos 5) ∷ varchar "e" ∷ []) (some 1) 0 ∷ [])
            else HashMap.get empty_users.tables other))
    × (r.1.tx_mgr.redo_buffer
        ≡ RedoRecord.insert 1 0 "users" (int (pos 5) ∷ varchar "e" ∷ []) 0 ∷ [])
unfolding everything
handle_insert_lem_example =
    handle_insert_lem empty_users (session_of 1) "users"
      ((const (int (pos 5)) ∷ const (varchar "e") ∷ []) ∷ (const (int (pos 6)) ∷ []) ∷ [])
      users_schema [] refl refl

abbrev one_begun : DatabaseState
unfolding everything
one_begun = record empty_users { tx_mgr = (begin (new_manager [] true)).1 }

one_begun-IsActive : IsActive (session_of 1) one_begun.tx_mgr
unfolding everything
one_begun-IsActive tx e =
    subst (λ t. HashMap.get one_begun.tx_mgr.statuses t ≡ some active) (some-injective 1 tx e) refl

inner_handle-Steps_example :
    Steps one_begun.tx_mgr
      (inner_handle (λ sql. fail (parse_failed sql)) 0 one_begun (session_of 1) " COMMIT ").1.tx_mgr
unfolding everything
inner_handle-Steps_example =
    inner_handle-Steps one_begun (session_of 1) one_begun-IsActive (λ sql. fail (parse_failed sql))
      0 " COMMIT " (omega arith, omega arith)
