-- ===== src/Recovery.antt =====
-- src/recovery.rs: `recover`, from the lines of redo.log to tables and transaction states. Its
-- messages, and the loop over table names that only prints, are left out.
pub mod Survivors
pub mod Restart
pub mod Durable
use volcano_db.Base.{
  ℕ, ◌+◌, max, Bool, true, false, String, Option, none, some, List, [], ◌∷◌, ◌++◌, map, ◌==◌,
  nat_eq, string_eq, ◌&&◌, not, any, filter, if◌then◌else◌,
}
use volcano_db.HashMap
use volcano_db.HashMap.{HashMap}
use volcano_db.Platform.{Platform}
use volcano_db.Text.{trim, text_is_empty}
use volcano_db.Storage.{Value, Tuple, tuple_with_meta}
use volcano_db.Tx.Records.{
  TxStatus, active, committed, rolled_back, RedoRecord, begin, insert, commit, rollback, Serde,
}
use volcano_db.Tx.Manager.{TransactionManager, wrap_u64}

module _ ⦃p : Platform⦄ where
  abbrev pub Tables : Type 0
  Tables = HashMap String (List Tuple)

  -- The variables of the first pass.
  pub record Roll : Type 0 where
    pub tables : Tables
    pub tx_mgr : TransactionManager
    pub committed_txs : List ℕ
    pub rolled_back_txs : List ℕ
    pub max_scn : ℕ

  -- `tables.entry(name).or_insert_with(Vec::new)`
  abbrev pub table_or_new : Tables → String → List Tuple
  table_or_new ts name = elim (HashMap.get ts name) [ none ↦ [] | some rows ↦ rows ]

  -- One record of the first pass.
  unfoldable pub roll_forward : Roll → RedoRecord → Roll
  roll_forward r (begin tx_id scn) = record r {
    tx_mgr = record r.tx_mgr { statuses = HashMap.insert r.tx_mgr.statuses tx_id active };
    max_scn = max r.max_scn scn;
  }
  roll_forward r (insert tx_id scn table_name values row_idx) = record r {
    tables =
        HashMap.insert r.tables table_name
          (table_or_new r.tables table_name ++ (tuple_with_meta values (some tx_id) scn ∷ []));
    max_scn = max r.max_scn scn;
  }
  roll_forward r (commit tx_id scn) = record r {
    committed_txs = tx_id ∷ r.committed_txs;
    tx_mgr = record r.tx_mgr {
      statuses = HashMap.insert r.tx_mgr.statuses tx_id committed;
      commit_scns = HashMap.insert r.tx_mgr.commit_scns tx_id scn;
    };
    max_scn = max r.max_scn scn;
  }
  roll_forward r (rollback tx_id scn) = record r {
    rolled_back_txs = tx_id ∷ r.rolled_back_txs;
    tx_mgr = record r.tx_mgr { statuses = HashMap.insert r.tx_mgr.statuses tx_id rolled_back };
    max_scn = max r.max_scn scn;
  }

  unfoldable pub roll_all : Roll → List RedoRecord → Roll
  unfolding roll_forward
  roll_all r [] = r
  roll_all r (rec ∷ rest) = roll_all (roll_forward r rec) rest

  abbrev pub contains : List ℕ → ℕ → Bool
  contains txs t = any (λ x. x == t) txs

  -- The second pass keeps the rows of no transaction and of the committed ones.
  unfoldable pub kept : List ℕ → List ℕ → Option ℕ → Bool
  kept done undone none = true
  kept done undone (some row_tx) = contains done row_tx && not (contains undone row_tx)

  abbrev pub keep : List ℕ → List ℕ → Tuple → Bool
  keep done undone t = kept done undone t.tx_id

  -- `for table in tables.values_mut() { table.retain(..) }`
  unfoldable pub retain_all : (Tuple → Bool) → Tables → Tables
  retain_all p [] = []
  retain_all p ((name, rows) ∷ rest) = (name, filter p rows) ∷ retain_all p rest

  abbrev pub start : Tables → TransactionManager → Roll
  start ts m = record {
    tables = ts;
    tx_mgr = m;
    committed_txs = [];
    rolled_back_txs = [];
    max_scn = 0;
  }

  unfoldable pub recover_records :
      List RedoRecord → Tables → TransactionManager → Tables × TransactionManager
  unfolding roll_all kept retain_all
  recover_records [] ts m = (ts, m)
  recover_records (rec ∷ recs) ts m =
      let r = roll_all (start ts m) (rec ∷ recs) in
      (
        retain_all (keep r.committed_txs r.rolled_back_txs) r.tables,
        record r.tx_mgr { scn = wrap_u64 (r.max_scn + 1) },
      )

  module _ ⦃serde : Serde⦄ where
    -- Blank lines and lines that do not parse are passed over.
    unfoldable pub parse_lines : List String → List RedoRecord
    parse_lines [] = []
    parse_lines (line ∷ rest) =
        let records = parse_lines rest in
        if text_is_empty (trim line)
        then records
        else elim (serde.from_str line) [ none ↦ records | some rec ↦ rec ∷ records ]

    -- recovery::recover, where `none` is a log that does not exist
    unfoldable pub recover :
        Option (List String) → Tables → TransactionManager → Tables × TransactionManager
    unfolding recover_records parse_lines
    recover none ts m = (ts, m)
    recover (some lines) ts m = recover_records (parse_lines lines) ts m
