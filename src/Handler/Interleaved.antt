-- ===== src/Handler/Interleaved.antt =====
-- Two ROLLBACKs of src/handler.rs on one table: the first moves the rows behind it, and the second
-- then removes by positions that are no longer those of its own rows.
use volcano_db.Base.{
  ℕ, suc, ◌≡◌, ◌≢◌, refl, ap, ◌∙◌, String, some, List, [], ◌∷◌, ◌++◌, arith, string_eq, nat_eq,
  length, remove_at, beq_refl,
}
use volcano_db.HashMap
use volcano_db.HashMap.{get-remove}
use volcano_db.Platform.{Platform}
use volcano_db.Storage.{Tuple}
use volcano_db.Tx.Records.{insert, Serde}
use volcano_db.Tx.Manager.{segment}
use volcano_db.Tx.Log.{rollback_lem}
use volcano_db.Session.{SessionState}
use volcano_db.Handler.Defs.{DatabaseState, handle_rollback}
use volcano_db.Handler.Positions.{undo_all-get}

module _ {ℓ} {A : Type ℓ} where
  remove_at-length :
      (pre : List A) (x : A) (rest : List A)
      → remove_at (pre ++ (x ∷ rest)) (length pre) ≡ pre ++ rest
  remove_at-length [] x rest = refl
  remove_at-length (y ∷ pre) x rest = ap (◌∷◌ y) (remove_at-length pre x rest)

  remove_at-after :
      (pre : List A) (x y : A) (rest : List A)
      → remove_at (pre ++ (x ∷ y ∷ rest)) (suc (length pre)) ≡ pre ++ (x ∷ rest)
  remove_at-after [] x y rest = refl
  remove_at-after (z ∷ pre) x y rest = ap (◌∷◌ z) (remove_at-after pre x y rest)

module _ ⦃p : Platform⦄ ⦃serde : Serde⦄ where
  -- A transaction with one insertion on record.
  single_rollback :
      (db : DatabaseState) (session : SessionState) (tx : ℕ) (name : String) (i : ℕ)
      (rows : List Tuple)
      → session.current_tx_id ≡ some tx
      → segment db.tx_mgr.undo_segments tx ≡ insert name i ∷ []
      → HashMap.get db.tables name ≡ some rows
      → HashMap.get (handle_rollback db session).1.tables name ≡ some (remove_at rows i)
  unfolding handle_rollback
  single_rollback db session tx name i rows current undo found =
      rw (current, undo)
        (undo_all-get name (insert name i ∷ []) db.tables ∙ rw (found, beq_refl name) refl)

  segment_other :
      (db : DatabaseState) (session : SessionState) (tx other : ℕ)
      → session.current_tx_id ≡ some tx
      → tx ≢ other
      → segment (handle_rollback db session).1.tx_mgr.undo_segments other
        ≡ segment db.tx_mgr.undo_segments other
  unfolding handle_rollback
  segment_other db session tx other current ne =
      rw (current, rollback_lem) (ground (arith, get-remove db.tx_mgr.undo_segments tx other))

  -- A table ends in three rows, and the undo records of two different transactions name just the
  -- first and just the second of the three. When the first transaction rolls back and then the
  -- second, the second row stays in the table and the third one, which neither has on record, is
  -- gone.
  pub rollback_hits_other :
      (db : DatabaseState) (s₁ s₂ : SessionState) (tx₁ tx₂ : ℕ) (name : String) (pre : List Tuple)
      (row₁ row₂ row₃ : Tuple)
      → s₁.current_tx_id ≡ some tx₁
      → s₂.current_tx_id ≡ some tx₂
      → tx₁ ≢ tx₂
      → HashMap.get db.tables name ≡ some (pre ++ (row₁ ∷ row₂ ∷ row₃ ∷ []))
      → segment db.tx_mgr.undo_segments tx₁ ≡ insert name (length pre) ∷ []
      → segment db.tx_mgr.undo_segments tx₂ ≡ insert name (suc (length pre)) ∷ []
      → HashMap.get (handle_rollback (handle_rollback db s₁).1 s₂).1.tables name
        ≡ some (pre ++ (row₂ ∷ []))
  rollback_hits_other db s₁ s₂ tx₁ tx₂ name pre row₁ row₂ row₃ c₁ c₂ ne found u₁ u₂ =
      single_rollback (handle_rollback db s₁).1 s₂ tx₂ name (suc (length pre))
        (pre ++ (row₂ ∷ row₃ ∷ [])) c₂ (segment_other db s₁ tx₁ tx₂ c₁ ne ∙ u₂)
        (single_rollback db s₁ tx₁ name (length pre) (pre ++ (row₁ ∷ row₂ ∷ row₃ ∷ [])) c₁ u₁ found
          ∙ ap some (remove_at-length pre row₁ (row₂ ∷ row₃ ∷ [])))
      ∙ ap some (remove_at-after pre row₂ row₃ [])
