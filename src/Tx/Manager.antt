-- ===== src/Tx/Manager.antt =====
-- src/tx.rs: `TransactionManager`. Counters are `u64` and wrap; redo.log is the list of its lines,
-- the last of which may lack its newline after a write that was cut off; the writes of the model
-- succeed (the source ignores their errors). Trace output is left out.
use volcano_db.Base.{
  ℕ, ◌+◌, ◌-◌, ◌%◌, ◌^◌, Bool, true, false, String, Option, none, some, List, [], ◌∷◌, ◌++◌, map,
  ◌==◌, nat_eq, is_empty, leb, if◌then◌else◌,
}
use volcano_db.HashMap
use volcano_db.HashMap.{HashMap}
use volcano_db.Platform.{Platform}
use volcano_db.Text.{◌^^◌}
use volcano_db.Storage.{Value}
use volcano_db.Tx.Records.{UndoRecord, TxStatus, active, committed, rolled_back, RedoRecord, Serde}

module _ ⦃p : Platform⦄ where
  pub record TransactionManager : Type 0 where
    pub scn : ℕ
    pub statuses : HashMap ℕ TxStatus
    pub commit_scns : HashMap ℕ ℕ
    pub undo_segments : HashMap ℕ (List UndoRecord)
    pub redo_buffer : List RedoRecord
    pub next_tx_id : ℕ
    pub redo_file : List String
    -- the last line of redo_file has its newline
    pub redo_ended : Bool

  -- TransactionManager::new on a log with these lines
  abbrev pub new_manager : List String → Bool → TransactionManager
  new_manager lines ended = record {
    scn = 0;
    statuses = [];
    commit_scns = [];
    undo_segments = [];
    redo_buffer = [];
    next_tx_id = 1;
    redo_file = lines;
    redo_ended = ended;
  }

  abbrev pub wrap_u64 : ℕ → ℕ
  wrap_u64 n = n % 2 ^ 64

  -- TransactionManager::begin
  unfoldable pub begin : TransactionManager → ℕ × TransactionManager
  begin m =
      let tx_id = m.next_tx_id in
      (
        tx_id,
        record m {
          next_tx_id = wrap_u64 (m.next_tx_id + 1);
          statuses = HashMap.insert m.statuses tx_id active;
          undo_segments = HashMap.insert m.undo_segments tx_id [];
          redo_buffer = m.redo_buffer ++ (RedoRecord.begin tx_id m.scn ∷ []);
        },
      )

  -- `undo_segments.entry(tx_id).or_default()`
  abbrev pub segment : HashMap ℕ (List UndoRecord) → ℕ → List UndoRecord
  segment m tx_id = elim (HashMap.get m tx_id) [ none ↦ [] | some us ↦ us ]

  -- TransactionManager::record_insert
  unfoldable pub record_insert :
      TransactionManager → ℕ → String → List Value → ℕ → TransactionManager
  record_insert m tx_id table_name values row_idx = record m {
    undo_segments =
        HashMap.insert m.undo_segments tx_id
          (segment m.undo_segments tx_id ++ (UndoRecord.insert table_name row_idx ∷ []));
    redo_buffer = m.redo_buffer ++ (RedoRecord.insert tx_id m.scn table_name values row_idx ∷ []);
  }

  -- Whether a row is visible: a row of no transaction, one of the session's own, or one committed
  -- at or before `cr_scn`.
  abbrev pub committed_by : Option TxStatus → Option ℕ → ℕ → Bool
  committed_by (some committed) scn cr_scn = elim scn [
    | none ↦ leb (2 ^ 64 - 1) cr_scn
    | some s ↦ leb s cr_scn
  ]
  committed_by _ scn cr_scn = false

  abbrev pub is_own : ℕ → Option ℕ → Bool
  is_own row_tx none = false
  is_own row_tx (some t) = row_tx == t

  unfoldable pub is_visible : TransactionManager → Option ℕ → Option ℕ → ℕ → Bool
  is_visible m none session_tx_id cr_scn = true
  is_visible m (some row_tx) session_tx_id cr_scn =
      if is_own row_tx session_tx_id
      then true
      else committed_by (HashMap.get m.statuses row_tx) (HashMap.get m.commit_scns row_tx) cr_scn

  module _ ⦃serde : Serde⦄ where
    abbrev pub to_line : RedoRecord → String
    to_line r = elim (serde.to_string r) [ none ↦ "null" | some s ↦ s ]

    -- What is written goes on in a last line that lacks its newline.
    abbrev pub glue : String → List String → List String
    glue line [] = line ∷ []
    glue line (new ∷ news) = (line ^^ new) ∷ news

    unfoldable pub append_lines : Bool → List String → List String → List String
    append_lines ended [] news = news
    append_lines ended (line ∷ []) news = if ended then line ∷ news else glue line news
    append_lines ended (line ∷ next ∷ lines) news = line ∷ append_lines ended (next ∷ lines) news

    -- TransactionManager::lgwr_flush
    unfoldable pub lgwr_flush : TransactionManager → TransactionManager
    unfolding append_lines
    lgwr_flush m = if is_empty m.redo_buffer then m else record m {
      redo_file = append_lines m.redo_ended m.redo_file (map to_line m.redo_buffer);
      redo_ended = true;
      redo_buffer = [];
    }

    -- TransactionManager::commit
    unfoldable pub commit : TransactionManager → ℕ → TransactionManager
    unfolding lgwr_flush
    commit m tx_id =
        let next_scn = wrap_u64 (m.scn + 1) in
        lgwr_flush (record m {
          scn = next_scn;
          statuses = HashMap.insert m.statuses tx_id committed;
          commit_scns = HashMap.insert m.commit_scns tx_id next_scn;
          redo_buffer = m.redo_buffer ++ (RedoRecord.commit tx_id next_scn ∷ []);
        })

    -- TransactionManager::rollback
    unfoldable pub rollback : TransactionManager → ℕ → TransactionManager
    unfolding lgwr_flush
    rollback m tx_id = lgwr_flush (record m {
      statuses = HashMap.insert m.statuses tx_id rolled_back;
      redo_buffer = m.redo_buffer ++ (RedoRecord.rollback tx_id m.scn ∷ []);
    })
