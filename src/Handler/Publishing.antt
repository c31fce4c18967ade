-- ===== src/Handler/Publishing.antt =====
-- COMMIT of src/handler.rs: what it answers, and who sees the rows from then on.
use volcano_db.Base.{
  ℕ, ◌+◌, ◌<◌, ◌^◌, ◌≤◌, ◌≡◌, ◌≢◌, ◌∙◌, refl, ap, true, false, String, Option, some, none, List,
  string_eq, nat_eq, arith,
}
use volcano_db.Platform.{Platform}
use volcano_db.Outcome.{Outcome, ok}
use volcano_db.Text.{trim}
use volcano_db.Planner.Ast.{Statement}
use volcano_db.Tx.Records.{Serde}
use volcano_db.Tx.Manager.{TransactionManager, is_visible, commit, wrap_u64}
use volcano_db.Tx.Log.{commit_lem}
use volcano_db.Tx.Visibility.{visible-commit}
use volcano_db.Session.{SessionState}
use volcano_db.Handler.Defs.{DatabaseState, committed, handle_commit, inner_handle}

module _ ⦃p : Platform⦄ ⦃serde : Serde⦄ where
  -- After a COMMIT, with room in the clock.
  module _ (m : TransactionManager) (tx : ℕ) (lt : m.scn + 1 < 2 ^ 64) where
    seen_after :
        (other : Option ℕ) (cr : ℕ)
        → (commit m tx).scn ≤ cr
        → is_visible (commit m tx) (some tx) other cr ≡ true
    seen_after other cr le =
        let scn : (commit m tx).scn ≡ wrap_u64 (m.scn + 1) = rw commit_lem refl in
        visible-commit m tx tx other cr ∙ ground (arith, scn)

    unseen_before :
        (other : Option ℕ) (cr : ℕ)
        → cr ≤ m.scn
        → other ≢ some tx
        → is_visible (commit m tx) (some tx) other cr ≡ false
    unseen_before none cr le ne = visible-commit m tx tx none cr ∙ ground arith
    unseen_before (some t) cr le ne =
        let apart : t ≢ tx = λ e. ne (ap some e) in
        visible-commit m tx tx (some t) cr ∙ ground (arith, apart)

  -- Where the clock is not at its end, a session that is in a transaction can commit it: COMMIT
  -- succeeds and ends the transaction, every query that runs at an SCN from afterwards, of any
  -- session, sees the rows of the transaction, and those that run at an SCN from before, of
  -- sessions in other transactions or in none, do not.
  pub commit_publishes :
      (parse_sql : String → Outcome (List Statement)) (fuel : ℕ) (db : DatabaseState)
      (session : SessionState) (sql : String) (tx : ℕ)
      → p.to_uppercase (trim sql) ≡ "COMMIT"
      → session.current_tx_id ≡ some tx
      → db.tx_mgr.scn + 1 < 2 ^ 64
      → let (o, db', session') = inner_handle parse_sql fuel db session sql in
        (o ≡ ok (committed tx))
        × (session'.current_tx_id ≡ none)
        × ((other : Option ℕ) (cr : ℕ)
            → db'.tx_mgr.scn ≤ cr
            → is_visible db'.tx_mgr (some tx) other cr ≡ true)
        × ((other : Option ℕ) (cr : ℕ)
            → cr ≤ db.tx_mgr.scn
            → other ≢ some tx
            → is_visible db'.tx_mgr (some tx) other cr ≡ false)
  unfolding inner_handle handle_commit
  commit_publishes parse_sql fuel db session sql tx up mine lt =
      rw (inner_handle, up, mine)
        (refl, refl, seen_after db.tx_mgr tx lt, unseen_before db.tx_mgr tx lt)
