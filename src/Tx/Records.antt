-- ===== src/Tx/Records.antt =====
-- src/tx.rs: undo and redo records, the states of a transaction, and the JSON lines of redo.log.
use volcano_db.Base.{ℕ, String, Option, List}
use volcano_db.Platform.{Platform}
use volcano_db.Storage.{Value}

pub data UndoRecord : Type 0 where
  -- table_name, row_idx
  insert : String → ℕ → UndoRecord

pub data TxStatus : Type 0 where
  active committed rolled_back : TxStatus

module _ ⦃p : Platform⦄ where
  pub data RedoRecord : Type 0 where
    -- tx_id, scn
    begin : ℕ → ℕ → RedoRecord
    -- tx_id, scn, table_name, values, row_idx
    insert : ℕ → ℕ → String → List Value → ℕ → RedoRecord
    commit : ℕ → ℕ → RedoRecord
    rollback : ℕ → ℕ → RedoRecord

  -- serde_json on redo records: `to_string` may refuse, and `from_str` answers only what parses.
  pub record Serde : Type 0 where
    pub to_string : RedoRecord → Option String
    pub from_str : String → Option RedoRecord
