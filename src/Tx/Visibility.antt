-- ===== src/Tx/Visibility.antt =====
-- What `is_visible` of src/tx.rs grants, and how BEGIN, INSERT, COMMIT and ROLLBACK change it.
use volcano_db.Base.{
  ℕ, ◌+◌, ◌^◌, ◌≤◌, ◌<◌, ◌≡◌, ◌↔◌, ◌⊎◌, true, Option, none, some, ◌==◌, nat_eq, arith, leb, ◌||◌,
  if◌then◌else◌,
}
use volcano_db.HashMap
use volcano_db.HashMap.{get-insert}
use volcano_db.Platform.{Platform}
use volcano_db.Tx.Records.{active, committed, rolled_back, Serde}
use volcano_db.Tx.Log.{commit_lem, rollback_lem}
use volcano_db.Tx.Manager.{
  TransactionManager, begin, commit, rollback, is_visible, is_own, wrap_u64,
}

module _ ⦃p : Platform⦄ where
  -- A row of a transaction is visible just to that transaction's own session, and to the queries
  -- whose `cr_scn` has reached the transaction's commit.
  abbrev pub Sees : TransactionManager → ℕ → Option ℕ → ℕ → Type 0
  Sees m tx session_tx cr =
      (session_tx ≡ some tx)
      ⊎ ((HashMap.get m.statuses tx ≡ some committed)
          × ((s : ℕ) × (HashMap.get m.commit_scns tx ≡ some s) × (s ≤ cr)))

  -- Every commit has its SCN on record, and no SCN on record is ahead of the clock.
  pub record IsConsistent (m : TransactionManager) : Type 0 where
    pub has_scn :
        (tx : ℕ)
        → HashMap.get m.statuses tx ≡ some committed
        → (s : ℕ) × (HashMap.get m.commit_scns tx ≡ some s) × (s ≤ m.scn)
    pub in_range : m.scn < 2 ^ 64

  -- On a consistent manager is_visible lets a session see a row of a transaction just when the
  -- transaction is the session's own, or when it is committed with a commit SCN that the query's
  -- SCN has reached.
  pub visible_iff :
      (m : TransactionManager) (tx : ℕ) (session_tx : Option ℕ) (cr : ℕ)
      → IsConsistent m
      → (is_visible m (some tx) session_tx cr ≡ true) ↔ Sees m tx session_tx cr
  unfolding is_visible
  visible_iff m tx none cr v = ground (arith, v.has_scn tx)
  visible_iff m tx (some t) cr v = ground (arith, v.has_scn tx)

  -- After BEGIN the rows under the id that it hands out are the new transaction's own.
  pub visible-begin :
      (m : TransactionManager) (tx : ℕ) (session_tx : Option ℕ) (cr : ℕ)
      → is_visible (begin m).1 (some tx) session_tx cr ≡ (
          if m.next_tx_id == tx then is_own tx session_tx else is_visible m (some tx) session_tx cr)
  unfolding is_visible begin
  visible-begin m tx none cr = ground (arith, get-insert m.statuses m.next_tx_id active tx)
  visible-begin m tx (some t) cr = ground (arith, get-insert m.statuses m.next_tx_id active tx)

  module _ ⦃serde : Serde⦄ where
    -- After COMMIT the transaction's rows are visible to its own session and to every query whose
    -- SCN has reached the next SCN; the rows of the other transactions are as visible as before.
    pub visible-commit :
        (m : TransactionManager) (c tx : ℕ) (session_tx : Option ℕ) (cr : ℕ)
        → is_visible (commit m c) (some tx) session_tx cr ≡ (
            if c == tx
            then is_own tx session_tx || leb (wrap_u64 (m.scn + 1)) cr
            else is_visible m (some tx) session_tx cr)
    unfolding is_visible
    visible-commit m c tx none cr = rw commit_lem (
        ground (
          arith,
          get-insert m.statuses c committed tx,
          get-insert m.commit_scns c (wrap_u64 (m.scn + 1)) tx,
        ))
    visible-commit m c tx (some t) cr = rw commit_lem (
        ground (
          arith,
          get-insert m.statuses c committed tx,
          get-insert m.commit_scns c (wrap_u64 (m.scn + 1)) tx,
        ))

    -- After ROLLBACK rows of the transaction are visible to its own session alone; the rows of the
    -- other transactions are as visible as before.
    pub visible-rollback :
        (m : TransactionManager) (c tx : ℕ) (session_tx : Option ℕ) (cr : ℕ)
        → is_visible (rollback m c) (some tx) session_tx cr
          ≡ (if c == tx then is_own tx session_tx else is_visible m (some tx) session_tx cr)
    unfolding is_visible
    visible-rollback m c tx none cr =
        rw rollback_lem (ground (arith, get-insert m.statuses c rolled_back tx))
    visible-rollback m c tx (some t) cr =
        rw rollback_lem (ground (arith, get-insert m.statuses c rolled_back tx))
