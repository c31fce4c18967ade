-- ===== src/Recovery/Survivors.antt =====
-- What `recover` of src/recovery.rs leaves in the tables, for every log: the inserted rows of the
-- transactions that have a commit record and no rollback record, in the order of the log.
use mathlib.Core.List.{append_assoc, append-nil}
use volcano_db.Base.{
  ℕ, ◌≡◌, refl, ap, sym, ◌∙◌, Bool, true, false, String, none, some, List, [], ◌∷◌, ◌++◌, ◌==◌,
  nat_eq, string_eq, ◌&&◌, ◌||◌, not, filter, arith, if◌then◌else◌, beq-cases, Option-cases, inl,
  inr, Bool-cases,
}
use volcano_db.HashMap
use volcano_db.HashMap.{HashMap, get-insert}
use volcano_db.Text.{trim, text_is_empty}
use volcano_db.Platform.{Platform}
use volcano_db.Storage.{Tuple, tuple_with_meta}
use volcano_db.Tx.Records.{RedoRecord, begin, insert, commit, rollback, Serde}
use volcano_db.Tx.Manager.{TransactionManager}
use volcano_db.Recovery.{
  Tables, Roll, table_or_new, roll_forward, roll_all, contains, kept, keep, retain_all,
  recover_records, start, parse_lines, recover,
}

module _ ⦃p : Platform⦄ where
  -- Whether the log holds a commit record, or a rollback record, of a transaction.
  abbrev pub has_commit : ℕ → List RedoRecord → Bool
  has_commit tx [] = false
  has_commit tx (commit t scn ∷ rest) = if t == tx then true else has_commit tx rest
  has_commit tx (_ ∷ rest) = has_commit tx rest

  abbrev pub has_rollback : ℕ → List RedoRecord → Bool
  has_rollback tx [] = false
  has_rollback tx (rollback t scn ∷ rest) = if t == tx then true else has_rollback tx rest
  has_rollback tx (_ ∷ rest) = has_rollback tx rest

  -- The rows that the log inserts into a table.
  abbrev pub logged_rows : String → List RedoRecord → List Tuple
  logged_rows name [] = []
  logged_rows name (insert tx scn table values i ∷ rest) =
      let later = logged_rows name rest in
      if table == name then tuple_with_meta values (some tx) scn ∷ later else later
  logged_rows name (_ ∷ rest) = logged_rows name rest

  -- A row of a table before the log, or of a transaction that ended well.
  abbrev pub survives : List RedoRecord → Tuple → Bool
  survives log t = elim (t.tx_id) [
    | none ↦ true
    | some tx ↦ has_commit tx log && not (has_rollback tx log)
  ]

  retain_all-get :
      (q : Tuple → Bool) (ts : Tables) (name : String)
      → table_or_new (retain_all q ts) name ≡ filter q (table_or_new ts name)
  unfolding retain_all HashMap.get
  retain_all-get q [] name = refl
  retain_all-get q ((n, rows) ∷ rest) name = ground (arith, retain_all-get q rest name)

  roll_all-rows :
      (log : List RedoRecord) (r : Roll) (name : String)
      → table_or_new (roll_all r log).tables name
        ≡ table_or_new r.tables name ++ logged_rows name log
  unfolding roll_all
  roll_all-rows [] r name = sym (append-nil (table_or_new r.tables name))
  roll_all-rows (begin t s ∷ log) r name = roll_all-rows log _ name
  roll_all-rows (commit t s ∷ log) r name = roll_all-rows log _ name
  roll_all-rows (rollback t s ∷ log) r name = roll_all-rows log _ name
  roll_all-rows (insert t s table vals i ∷ log) r name =
      roll_all-rows log (roll_forward r (insert t s table vals i)) name
      ∙ elim (beq-cases table name) [
        | inl (h, same) ↦
            rw (h, table_or_new, get-insert, h, same)
              (append_assoc (table_or_new r.tables name) _ _)
        | inr h ↦ rw (table_or_new, get-insert, h) refl
      ]

  roll_all-committed :
      (log : List RedoRecord) (r : Roll) (tx : ℕ)
      → contains (roll_all r log).committed_txs tx
        ≡ (contains r.committed_txs tx || has_commit tx log)
  unfolding roll_all
  roll_all-committed [] r tx = ground arith
  roll_all-committed (begin t s ∷ log) r tx = roll_all-committed log _ tx
  roll_all-committed (insert t s table vals i ∷ log) r tx = roll_all-committed log _ tx
  roll_all-committed (rollback t s ∷ log) r tx = roll_all-committed log _ tx
  roll_all-committed (commit t s ∷ log) r tx =
      roll_all-committed log (roll_forward r (commit t s)) tx ∙ ground arith

  roll_all-rolled_back :
      (log : List RedoRecord) (r : Roll) (tx : ℕ)
      → contains (roll_all r log).rolled_back_txs tx
        ≡ (contains r.rolled_back_txs tx || has_rollback tx log)
  unfolding roll_all
  roll_all-rolled_back [] r tx = ground arith
  roll_all-rolled_back (begin t s ∷ log) r tx = roll_all-rolled_back log _ tx
  roll_all-rolled_back (insert t s table vals i ∷ log) r tx = roll_all-rolled_back log _ tx
  roll_all-rolled_back (commit t s ∷ log) r tx = roll_all-rolled_back log _ tx
  roll_all-rolled_back (rollback t s ∷ log) r tx =
      roll_all-rolled_back log (roll_forward r (rollback t s)) tx ∙ ground arith

  survives-keep :
      (log : List RedoRecord) (ts : Tables) (m : TransactionManager) (t : Tuple)
      → let r = roll_all (start ts m) log in
        keep r.committed_txs r.rolled_back_txs t ≡ survives log t
  unfolding kept
  survives-keep log ts m t = elim (Option-cases (t.tx_id)) [
    | inl e ↦ rw (keep, survives, e) refl
    | inr (tx, e) ↦
        rw
          (
            keep,
            survives,
            e,
            kept,
            roll_all-committed log (start ts m) tx,
            roll_all-rolled_back log (start ts m) tx,
          )
          refl
  ]

  filter-agree :
      {A : Type 0} (f g : A → Bool)
      → ((x : A) → f x ≡ g x)
      → (xs : List A) → filter f xs ≡ filter g xs
  filter-agree f g h [] = refl
  filter-agree f g h (x ∷ xs) = ground (arith, h x, filter-agree f g h xs)

  -- Recovery from a log with at least one record, started on any tables and any manager, leaves in
  -- a table its old rows and the rows that the log inserts into it, in that order, without those of
  -- the transactions that have no commit record or that have a rollback record.
  pub recover_records-rows :
      (rec : RedoRecord) (recs : List RedoRecord) (ts : Tables) (m : TransactionManager)
      (name : String)
      → table_or_new (recover_records (rec ∷ recs) ts m).0 name
        ≡ filter (survives (rec ∷ recs)) (table_or_new ts name ++ logged_rows name (rec ∷ recs))
  unfolding recover_records
  recover_records-rows rec recs ts m name =
      let log = rec ∷ recs in
      let r = roll_all (start ts m) log in
      retain_all-get (keep r.committed_txs r.rolled_back_txs) r.tables name
      ∙ ap (filter (keep r.committed_txs r.rolled_back_txs)) (roll_all-rows log (start ts m) name)
      ∙ filter-agree _ _ (survives-keep log ts m) (table_or_new ts name ++ logged_rows name log)

  module _ ⦃serde : Serde⦄ where
    -- The records that a log with these lines holds: a blank line and a line that serde_json does
    -- not read hold none, and every other line holds the record that serde_json reads from it.
    pub data LogOf : List String → List RedoRecord → Type 0 where
      ended : LogOf [] []
      blank :
          {rest : List String} {log : List RedoRecord} (line : String)
          → text_is_empty (trim line) ≡ true
          → LogOf rest log
          → LogOf (line ∷ rest) log
      unreadable :
          {rest : List String} {log : List RedoRecord} (line : String)
          → text_is_empty (trim line) ≡ false
          → serde.from_str line ≡ none
          → LogOf rest log
          → LogOf (line ∷ rest) log
      readable :
          {rest : List String} {log : List RedoRecord} (line : String) (rec : RedoRecord)
          → text_is_empty (trim line) ≡ false
          → serde.from_str line ≡ some rec
          → LogOf rest log
          → LogOf (line ∷ rest) (rec ∷ log)

    parse_lines-LogOf : (lines : List String) → LogOf lines (parse_lines lines)
    unfolding parse_lines
    parse_lines-LogOf [] = ended
    parse_lines-LogOf (line ∷ rest) = elim (Bool-cases (text_is_empty (trim line))) [
      | inl b ↦ rw (b, parse_lines) (blank line b (parse_lines-LogOf rest))
      | inr b ↦ elim (Option-cases (serde.from_str line)) [
        | inl e ↦ rw (b, e, parse_lines) (unreadable line b e (parse_lines-LogOf rest))
        | inr (rec, e) ↦ rw (b, e, parse_lines) (readable line rec b e (parse_lines-LogOf rest))
      ]
    ]

    pub recover-parsed :
        (lines : List String) (m : TransactionManager) (name : String)
        → table_or_new (recover (some lines) [] m).0 name
          ≡ filter (survives (parse_lines lines)) (logged_rows name (parse_lines lines))
    unfolding recover HashMap.get
    recover-parsed lines m name = go (parse_lines lines) refl
      where
        go :
            (log : List RedoRecord)
            → parse_lines lines ≡ log
            → table_or_new (recover (some lines) [] m).0 name
              ≡ filter (survives (parse_lines lines)) (logged_rows name (parse_lines lines))
        go [] e = rw (e, recover_records) refl
        go (rec ∷ recs) e = rw e (recover_records-rows rec recs [] m name)

    -- Recovery at the start of the server, when there are no tables yet: whatever lines the log
    -- file holds, there are the records that they hold, blank and unreadable lines passed over, and
    -- a table then has the rows that these records insert into it, in the order of the log, for
    -- just the transactions that have a commit record and no rollback record.
    pub recover-rows :
        (lines : List String) (m : TransactionManager)
        → (log : List RedoRecord) × LogOf lines log
          × ((name : String)
              → table_or_new (recover (some lines) [] m).0 name
                ≡ filter (survives log) (logged_rows name log))
    recover-rows lines m = (parse_lines lines, parse_lines-LogOf lines, recover-parsed lines m)
