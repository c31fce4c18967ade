-- ===== src/Tx/Steps.antt =====
-- The life of a `TransactionManager` as steps of its operations, as sessions may make them, and what
-- every reachable manager satisfies.
use volcano_db.Base.{
  ℕ, ◌+◌, ◌^◌, ◌≤◌, ◌<◌, ◌≡◌, refl, inl, inr, Option, some, List, nat_eq, arith, String, beq-cases,
  ◌∙◌, Bool,
}
use volcano_db.HashMap
use volcano_db.HashMap.{get-insert}
use volcano_db.Platform.{Platform}
use volcano_db.Storage.{Value}
use volcano_db.Tx.Records.{TxStatus, active, committed, rolled_back, Serde}
use volcano_db.Tx.Log.{commit_lem, rollback_lem}
use volcano_db.Tx.Manager.{
  TransactionManager, begin, commit, rollback, record_insert, is_visible, is_own, wrap_u64,
  new_manager,
}
use volcano_db.Tx.Visibility.{IsConsistent, visible-begin, visible-commit, visible-rollback}

module _ ⦃p : Platform⦄ where
  -- Ids are handed out once: every transaction on record has one below the next.
  pub record IsFresh (m : TransactionManager) : Type 0 where
    pub below : (tx : ℕ) (st : TxStatus) → HashMap.get m.statuses tx ≡ some st → tx < m.next_tx_id

  abbrev pub without_undo : TransactionManager → ℕ → TransactionManager
  without_undo m tx = record m { undo_segments = HashMap.remove m.undo_segments tx }

  module _ ⦃serde : Serde⦄ where
    -- Sessions begin transactions at will, and work on active ones; the counters do not overflow.
    pub data Step (m : TransactionManager) : TransactionManager → Type 0 where
      begins : m.next_tx_id + 1 < 2 ^ 64 → Step m (begin m).1
      inserts :
          (tx : ℕ) (table_name : String) (values : List Value) (row_idx : ℕ)
          → HashMap.get m.statuses tx ≡ some active
          → Step m (record_insert m tx table_name values row_idx)
      commits :
          (tx : ℕ)
          → HashMap.get m.statuses tx ≡ some active
          → m.scn + 1 < 2 ^ 64
          → Step m (commit m tx)
      -- with the transaction's undo records taken out, as the handler does
      rolls_back :
          (tx : ℕ)
          → HashMap.get m.statuses tx ≡ some active
          → Step m (rollback (without_undo m tx) tx)

    pub data Steps (m : TransactionManager) : TransactionManager → Type 0 where
      here : Steps m m
      next : {n o : TransactionManager} → Steps m n → Step n o → Steps m o

    Step-IsFresh : {m n : TransactionManager} → Step m n → IsFresh m → IsFresh n
    unfolding begin record_insert
    Step-IsFresh {m} (begins lt) v = record {
      below =
          λ tx st e. ground (arith, get-insert m.statuses m.next_tx_id active tx, v.below tx st);
    }
    Step-IsFresh (inserts tx name vals i a) v = record { below = v.below }
    Step-IsFresh {m} (commits c a lt) v = record {
      below = λ tx st. rw commit_lem (λ e.
          ground (arith, get-insert m.statuses c committed tx, v.below tx st, v.below c active));
    }
    Step-IsFresh {m} (rolls_back c a) v = record {
      below = λ tx st. rw rollback_lem (λ e.
          ground (arith, get-insert m.statuses c rolled_back tx, v.below tx st, v.below c active));
    }

    Step-IsConsistent : {m n : TransactionManager} → Step m n → IsConsistent m → IsConsistent n
    unfolding begin record_insert
    Step-IsConsistent {m} (begins lt) v = record {
      has_scn = λ tx e. ground (arith, get-insert m.statuses m.next_tx_id active tx, v.has_scn tx);
      in_range = v.in_range;
    }
    Step-IsConsistent (inserts tx name vals i a) v = record {
      has_scn = v.has_scn;
      in_range = v.in_range;
    }
    Step-IsConsistent {m} (commits c a lt) v = rw commit_lem (record {
      has_scn = λ tx e. ground (
        arith,
        get-insert m.statuses c committed tx,
        get-insert m.commit_scns c (wrap_u64 (m.scn + 1)) tx,
        v.has_scn tx,
      );
      in_range = omega arith;
    })
    Step-IsConsistent {m} (rolls_back c a) v = rw rollback_lem (record {
      has_scn = λ tx e. ground (arith, get-insert m.statuses c rolled_back tx, v.has_scn tx);
      in_range = v.in_range;
    })

    -- What holds of every manager that the steps reach.
    pub record IsSound (m : TransactionManager) : Type 0 where
      pub fresh : IsFresh m
      pub consistent : IsConsistent m

    pub Step-IsSound : {m n : TransactionManager} → Step m n → IsSound m → IsSound n
    Step-IsSound s v = record {
      fresh = Step-IsFresh s v.fresh;
      consistent = Step-IsConsistent s v.consistent;
    }

    -- Every manager that the steps reach from a sound one is sound: each transaction on record has
    -- an id below the next one, every committed one has a commit SCN that the clock has reached,
    -- and the clock is in range.
    pub Steps-IsSound : {m n : TransactionManager} → IsSound m → Steps m n → IsSound n
    Steps-IsSound v here = v
    Steps-IsSound v (next r s) = Step-IsSound s (Steps-IsSound v r)

    pub new_manager-IsSound :
        (lines : List String) (ended : Bool) → IsSound (new_manager lines ended)
    unfolding HashMap.get
    new_manager-IsSound lines ended = record {
      fresh = record { below = λ tx st e. cc };
      consistent = record { has_scn = λ tx e. cc; in_range = omega arith };
    }

    scn_mono : {m n : TransactionManager} → Step m n → m.scn ≤ n.scn
    unfolding begin record_insert
    scn_mono (begins lt) = omega arith
    scn_mono (inserts tx name vals i a) = omega arith
    scn_mono (commits c a lt) = rw commit_lem (omega arith)
    scn_mono (rolls_back c a) = rw rollback_lem (omega arith)

    Steps_mono : {m n : TransactionManager} {cr : ℕ} → cr ≤ m.scn → Steps m n → cr ≤ n.scn
    Steps_mono le here = le
    Steps_mono le (next r s) = let before = Steps_mono le r in let after = scn_mono s in omega arith

    active_not_committed :
        (m : TransactionManager) {c tx : ℕ}
        → c ≡ tx
        → HashMap.get m.statuses c ≡ some active
        → ¬ (HashMap.get m.statuses tx ≡ some committed)
    active_not_committed m e a d = cc

    module _ (tx : ℕ) (session_tx : Option ℕ) (cr : ℕ) where
      -- A transaction that is not committed.
      hidden :
          (m : TransactionManager)
          → ¬ (HashMap.get m.statuses tx ≡ some committed)
          → is_visible m (some tx) session_tx cr ≡ is_own tx session_tx
      unfolding is_visible
      hidden m h = ground arith

      visible-without_undo :
          (m : TransactionManager) (c : ℕ)
          → is_visible (without_undo m c) (some tx) session_tx cr
            ≡ is_visible m (some tx) session_tx cr
      unfolding is_visible
      visible-without_undo m c = refl

      visible-Step :
          {m n : TransactionManager}
          → IsFresh m
          → cr ≤ m.scn
          → Step m n
          → is_visible n (some tx) session_tx cr ≡ is_visible m (some tx) session_tx cr
      visible-Step {m} v le (begins lt) = elim (beq-cases m.next_tx_id tx) [
        | inl (t, e) ↦ ground (
          arith,
          visible-begin m tx session_tx cr,
          hidden m (λ c. let below = v.below tx committed c in omega arith),
        )
        | inr t ↦ ground (arith, visible-begin m tx session_tx cr)
      ]
      visible-Step {m} v le (inserts c name vals i a) = unfold record_insert is_visible in refl
      visible-Step {m} v le (commits c a lt) = elim (beq-cases c tx) [
        | inl (t, e) ↦
            ground
              (arith, visible-commit m c tx session_tx cr, hidden m (active_not_committed m e a))
        | inr t ↦ ground (arith, visible-commit m c tx session_tx cr)
      ]
      visible-Step {m} v le (rolls_back c a) = elim (beq-cases c tx) [
        | inl (t, e) ↦ ground (
          arith,
          visible-rollback (without_undo m c) c tx session_tx cr,
          hidden m (active_not_committed m e a),
        )
        | inr t ↦ ground (
          arith,
          visible-rollback (without_undo m c) c tx session_tx cr,
          visible-without_undo m c,
        )
      ]

      -- From a sound manager on, at a query SCN that the clock has reached, no sequence of steps
      -- changes the answer of `is_visible` for the rows of a transaction. It says nothing of rows of
      -- no transaction, nor of rows that are added to a table or removed from it.
      pub snapshot_stable :
          {m n : TransactionManager}
          → IsSound m
          → cr ≤ m.scn
          → Steps m n
          → is_visible n (some tx) session_tx cr ≡ is_visible m (some tx) session_tx cr
      snapshot_stable v le here = refl
      snapshot_stable v le (next r s) =
          visible-Step (Steps-IsSound v r).fresh (Steps_mono le r) s ∙ snapshot_stable v le r
