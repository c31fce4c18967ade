-- ===== src/Recovery/Restart.antt =====
-- The transaction manager that `recover` of src/recovery.rs leaves behind, and the first BEGIN on it.
use volcano_db.Base.{
  ℕ, ◌+◌, ◌^◌, ◌≤◌, ◌<◌, ◌≡◌, refl, ◌∙◌, leb, Bool, false, String, none, some, List, [], ◌∷◌,
  nat_eq, arith, All,
}
use volcano_db.HashMap.{get-insert}
use volcano_db.HashMap
use volcano_db.Platform.{Platform}
use volcano_db.Tx.Records.{
  active, committed, rolled_back, RedoRecord, begin, insert, commit, rollback, Serde,
}
use volcano_db.Tx.Manager
use volcano_db.Tx.Manager.{TransactionManager, is_visible, new_manager, wrap_u64}
use volcano_db.Tx.Visibility.{IsConsistent, visible-begin, visible-commit}
use volcano_db.Recovery.{
  Tables, Roll, roll_forward, roll_all, recover_records, start, parse_lines, recover,
}

module _ ⦃p : Platform⦄ where
  abbrev pub scn_of : RedoRecord → ℕ
  scn_of (begin t s) = s
  scn_of (insert t s table vals i) = s
  scn_of (commit t s) = s
  scn_of (rollback t s) = s

  -- The first pass keeps the SCN of every commit on record, within the largest SCN that it met.
  record Covers (r : Roll) : Type 0 where
    pub has_scn :
        (tx : ℕ)
        → HashMap.get r.tx_mgr.statuses tx ≡ some committed
        → (s : ℕ) × (HashMap.get r.tx_mgr.commit_scns tx ≡ some s) × (s ≤ r.max_scn)
    pub in_range : r.max_scn + 1 < 2 ^ 64

  roll_forward-Covers :
      (r : Roll) (rec : RedoRecord)
      → scn_of rec + 1 < 2 ^ 64
      → Covers r
      → Covers (roll_forward r rec)
  unfolding roll_forward
  roll_forward-Covers r (begin t s) lt v = record {
    has_scn = λ tx e. ground (arith, get-insert r.tx_mgr.statuses t active tx, v.has_scn tx);
    in_range = let w = v.in_range in omega arith;
  }
  roll_forward-Covers r (insert t s table vals i) lt v = record {
    has_scn = λ tx e. ground (arith, v.has_scn tx);
    in_range = let w = v.in_range in omega arith;
  }
  roll_forward-Covers r (commit t s) lt v = record {
    has_scn = λ tx e. ground (
      arith,
      get-insert r.tx_mgr.statuses t committed tx,
      get-insert r.tx_mgr.commit_scns t s tx,
      v.has_scn tx,
    );
    in_range = let w = v.in_range in omega arith;
  }
  roll_forward-Covers r (rollback t s) lt v = record {
    has_scn = λ tx e. ground (arith, get-insert r.tx_mgr.statuses t rolled_back tx, v.has_scn tx);
    in_range = let w = v.in_range in omega arith;
  }

  roll_all-Covers :
      (log : List RedoRecord) (r : Roll)
      → All (λ rec. scn_of rec + 1 < 2 ^ 64) log
      → Covers r
      → Covers (roll_all r log)
  unfolding roll_all
  roll_all-Covers [] r h v = v
  roll_all-Covers (rec ∷ log) r (lt, h) v =
      roll_all-Covers log (roll_forward r rec) h (roll_forward-Covers r rec lt v)

  -- Recovery from records whose SCNs stay below the last value of u64, started on a new manager,
  -- leaves a manager on which every committed transaction has a commit SCN that the clock has
  -- reached.
  pub recover_records-IsConsistent :
      (log : List RedoRecord) (ts : Tables) (lines : List String) (ended : Bool)
      → All (λ rec. scn_of rec + 1 < 2 ^ 64) log
      → IsConsistent (recover_records log ts (new_manager lines ended)).1
  unfolding recover_records HashMap.get
  recover_records-IsConsistent [] ts lines ended h = record {
    has_scn = λ tx e. cc;
    in_range = omega arith;
  }
  recover_records-IsConsistent (rec ∷ recs) ts lines ended h =
      let c =
        roll_all-Covers (rec ∷ recs) (start ts (new_manager lines ended)) h
          (record { has_scn = λ tx e. cc; in_range = omega arith }) in
      record {
        has_scn = λ tx e. let w = c.in_range in ground (arith, c.has_scn tx);
        in_range = omega arith;
      }

  roll_all-next_tx_id :
      (log : List RedoRecord) (r : Roll) → (roll_all r log).tx_mgr.next_tx_id ≡ r.tx_mgr.next_tx_id
  unfolding roll_all roll_forward
  roll_all-next_tx_id [] r = refl
  roll_all-next_tx_id (begin t s ∷ log) r = roll_all-next_tx_id log _
  roll_all-next_tx_id (insert t s table vals i ∷ log) r = roll_all-next_tx_id log _
  roll_all-next_tx_id (commit t s ∷ log) r = roll_all-next_tx_id log _
  roll_all-next_tx_id (rollback t s ∷ log) r = roll_all-next_tx_id log _

  pub recover_records-next_tx_id :
      (log : List RedoRecord) (ts : Tables) (m : TransactionManager)
      → (recover_records log ts m).1.next_tx_id ≡ m.next_tx_id
  unfolding recover_records
  recover_records-next_tx_id [] ts m = refl
  recover_records-next_tx_id (rec ∷ recs) ts m = roll_all-next_tx_id (rec ∷ recs) (start ts m)

  module _ ⦃serde : Serde⦄ where
    -- After a restart the first BEGIN hands out transaction id 1, whatever ids the log used. Right
    -- after it the rows of an old transaction 1 are invisible to a session outside a transaction,
    -- at every SCN, even when the log committed them; and right after a COMMIT of the new
    -- transaction 1 such a session sees them from the SCN of that commit on.
    pub restart_hides_first :
        (lines : List String) (ended : Bool) (cr : ℕ)
        → let m = (recover (some lines) [] (new_manager lines ended)).1 in
          let begun = (Manager.begin m).1 in
          ((Manager.begin m).0 ≡ 1)
          × (is_visible begun (some 1) none cr ≡ false)
          × (is_visible (Manager.commit begun 1) (some 1) none cr ≡ leb (wrap_u64 (m.scn + 1)) cr)
    unfolding recover Manager.begin
    restart_hides_first lines ended cr =
        let m = (recover (some lines) [] (new_manager lines ended)).1 in
        let e = recover_records-next_tx_id (parse_lines lines) [] (new_manager lines ended) in
        (e, visible-begin _ 1 none cr ∙ rw e refl, visible-commit (Manager.begin m).1 1 1 none cr)
