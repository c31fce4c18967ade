-- ===== src/Tx/Log.antt =====
-- The redo log of src/tx.rs: what `lgwr_flush` writes, and that COMMIT and ROLLBACK leave nothing in
-- the buffer.
use volcano_db.Base.{
  ℕ, ◌+◌, ◌≡◌, refl, ap, true, false, String, List, [], ◌∷◌, ◌++◌, map, is_empty, nat_eq,
  if◌then◌else◌,
}
use volcano_db.HashMap
use volcano_db.Platform.{Platform}
use volcano_db.Text.{◌^^◌}
use volcano_db.Tx.Records.{RedoRecord, committed, rolled_back, Serde}
use volcano_db.Tx.Manager.{
  TransactionManager, wrap_u64, to_line, append_lines, lgwr_flush, commit, rollback,
}

is_empty-append {ℓ} : {A : Type ℓ} (xs : List A) (x : A) → is_empty (xs ++ (x ∷ [])) ≡ false
is_empty-append [] x = refl
is_empty-append (y ∷ ys) x = refl

module _ ⦃p : Platform⦄ ⦃serde : Serde⦄ where
  -- After a last line with its newline the new lines follow.
  pub append_lines-ended : (lines news : List String) → append_lines true lines news ≡ lines ++ news
  unfolding append_lines
  append_lines-ended [] news = refl
  append_lines-ended (line ∷ []) news = refl
  append_lines-ended (line ∷ next ∷ lines) news =
      ap (◌∷◌ line) (append_lines-ended (next ∷ lines) news)

  -- A last line without its newline takes up the first new line.
  pub append_lines-torn :
      (lines : List String) (last new : String) (news : List String)
      → append_lines false (lines ++ (last ∷ [])) (new ∷ news) ≡ lines ++ ((last ^^ new) ∷ news)
  unfolding append_lines
  append_lines-torn [] last new news = refl
  append_lines-torn (line ∷ []) last new news = refl
  append_lines-torn (line ∷ next ∷ lines) last new news =
      ap (◌∷◌ line) (append_lines-torn (next ∷ lines) last new news)

  lgwr_flush_lem :
      (m : TransactionManager)
      → is_empty m.redo_buffer ≡ false
      → lgwr_flush m ≡ record m {
        redo_file = append_lines m.redo_ended m.redo_file (map to_line m.redo_buffer);
        redo_ended = true;
        redo_buffer = [];
      }
  unfolding lgwr_flush
  lgwr_flush_lem m e =
      ap
        (λ b. if b then m else record m {
          redo_file = append_lines m.redo_ended m.redo_file (map to_line m.redo_buffer);
          redo_ended = true;
          redo_buffer = [];
        })
        e

  pub commit_lem :
      (m : TransactionManager) (tx : ℕ)
      → commit m tx ≡ record m {
        scn = wrap_u64 (m.scn + 1);
        statuses = HashMap.insert m.statuses tx committed;
        commit_scns = HashMap.insert m.commit_scns tx (wrap_u64 (m.scn + 1));
        redo_file =
            append_lines m.redo_ended m.redo_file
              (map to_line (m.redo_buffer ++ (RedoRecord.commit tx (wrap_u64 (m.scn + 1)) ∷ [])));
        redo_ended = true;
        redo_buffer = [];
      }
  unfolding commit
  commit_lem m tx = lgwr_flush_lem _ (is_empty-append m.redo_buffer _)

  pub rollback_lem :
      (m : TransactionManager) (tx : ℕ)
      → rollback m tx ≡ record m {
        statuses = HashMap.insert m.statuses tx rolled_back;
        redo_file =
            append_lines m.redo_ended m.redo_file
              (map to_line (m.redo_buffer ++ (RedoRecord.rollback tx m.scn ∷ [])));
        redo_ended = true;
        redo_buffer = [];
      }
  unfolding rollback
  rollback_lem m tx = lgwr_flush_lem _ (is_empty-append m.redo_buffer _)
