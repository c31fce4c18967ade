-- ===== src/Recovery/Durable.antt =====
-- COMMIT of src/tx.rs and `recover` of src/recovery.rs together: what the redo log of a committed
-- transaction brings back after a crash.
use mathlib.Core.List.{append_assoc}
use volcano_db.Base.{
  ℕ, ◌+◌, ◌≡◌, refl, ◌∙◌, sym, ap, Bool, true, false, String, Option, none, some, List, [], ◌∷◌,
  ◌++◌, map, ◌==◌, nat_eq, string_eq, arith, All, filter, Bool-cases, Option-cases, inl, inr, ◌&&◌,
  not,
}
use volcano_db.Platform.{Platform}
use volcano_db.Text.{◌^^◌, trim, text_is_empty}
use volcano_db.Storage.{Tuple}
use volcano_db.Tx.Records.{RedoRecord, Serde}
use volcano_db.Tx.Manager.{TransactionManager, wrap_u64, to_line, commit}
use volcano_db.Tx.Log.{commit_lem, append_lines-ended, append_lines-torn}
use volcano_db.Recovery.{parse_lines, recover, table_or_new}
use volcano_db.Recovery.Survivors.{has_commit, has_rollback, logged_rows, survives, recover-parsed}

module _ ⦃p : Platform⦄ ⦃serde : Serde⦄ where
  -- A record that serde_json writes and reads back, on a line that is not blank.
  pub record RoundTrips (r : RedoRecord) : Type 0 where
    pub line : String
    pub written : serde.to_string r ≡ some line
    pub not_blank : text_is_empty (trim line) ≡ false
    pub read : serde.from_str line ≡ some r

  abbrev with_read : Option RedoRecord → List RedoRecord → List RedoRecord
  with_read o records = elim o [ none ↦ records | some rec ↦ rec ∷ records ]

  parse_lines-append :
      (xs ys : List String) → parse_lines (xs ++ ys) ≡ parse_lines xs ++ parse_lines ys
  unfolding parse_lines
  parse_lines-append [] ys = refl
  parse_lines-append (x ∷ xs) ys = elim (Bool-cases (text_is_empty (trim x))) [
    | inl h ↦ rw h (parse_lines-append xs ys)
    | inr h ↦ rw h (read (serde.from_str x) (parse_lines-append xs ys))
  ]
    where
      read :
          (o : Option RedoRecord)
          → parse_lines (xs ++ ys) ≡ parse_lines xs ++ parse_lines ys
          → with_read o (parse_lines (xs ++ ys)) ≡ with_read o (parse_lines xs) ++ parse_lines ys
      read none e = e
      read (some rec) e = ap (◌∷◌ rec) e

  parse_lines-written :
      (rs : List RedoRecord) → All RoundTrips rs → parse_lines (map to_line rs) ≡ rs
  unfolding parse_lines
  parse_lines-written [] h = refl
  parse_lines-written (r ∷ rs) (t, h) =
      rw (to_line, t.written, t.not_blank, t.read) (ap (◌∷◌ r) (parse_lines-written rs h))

  parse_lines-unreadable :
      (line : String) (rest : List String)
      → serde.from_str line ≡ none
      → parse_lines (line ∷ rest) ≡ parse_lines rest
  unfolding parse_lines
  parse_lines-unreadable line rest e = elim (Bool-cases (text_is_empty (trim line))) [
    | inl b ↦ rw b refl
    | inr b ↦ rw (b, e) refl
  ]

  -- On a log whose last line has its newline, when serde_json reads back what it wrote for the
  -- records in the buffer and for the commit, the records that recovery reads after COMMIT are
  -- those that it would have read before, then the whole buffer, then the commit record: nothing
  -- of the transaction is left behind.
  pub commit-logged :
      (m : TransactionManager) (tx : ℕ)
      → let written = m.redo_buffer ++ (RedoRecord.commit tx (wrap_u64 (m.scn + 1)) ∷ []) in
        m.redo_ended ≡ true
        → All RoundTrips written
        → parse_lines (commit m tx).redo_file ≡ parse_lines m.redo_file ++ written
  commit-logged m tx ended h =
      let written = m.redo_buffer ++ (RedoRecord.commit tx (wrap_u64 (m.scn + 1)) ∷ []) in
      rw (commit_lem, ended, append_lines-ended)
        (parse_lines-append m.redo_file (map to_line written)
          ∙ ap (◌++◌ (parse_lines m.redo_file)) (parse_lines-written written h))

  -- On a log whose last line was cut off before its newline, COMMIT loses a record: its first
  -- record goes on in that line, and when serde_json does not read the two together, recovery reads
  -- the lines before, and of what COMMIT writes all the records but the first, when it reads back
  -- what it wrote for those.
  pub commit-logged_torn :
      (m : TransactionManager) (tx : ℕ) (lines : List String) (last : String) (rec : RedoRecord)
      (rest : List RedoRecord)
      → m.redo_ended ≡ false
      → m.redo_file ≡ lines ++ (last ∷ [])
      → m.redo_buffer ++ (RedoRecord.commit tx (wrap_u64 (m.scn + 1)) ∷ []) ≡ rec ∷ rest
      → serde.from_str (last ^^ to_line rec) ≡ none
      → All RoundTrips rest
      → parse_lines (commit m tx).redo_file ≡ parse_lines lines ++ rest
  commit-logged_torn m tx lines last rec rest torn file written e h =
      rw (commit_lem, torn, file, written, append_lines-torn lines last)
        (parse_lines-append lines ((last ^^ to_line rec) ∷ map to_line rest)
          ∙ ap (◌++◌ (parse_lines lines)) (
              parse_lines-unreadable (last ^^ to_line rec) (map to_line rest) e
              ∙ parse_lines-written rest h))

  -- The rows of one transaction.
  abbrev pub of_tx : ℕ → Tuple → Bool
  of_tx tx t = elim (t.tx_id) [ none ↦ false | some row_tx ↦ row_tx == tx ]

  filter-within :
      {A : Type 0} (f g : A → Bool)
      → ((x : A) → f x ≡ true → g x ≡ true)
      → (xs : List A) → filter f (filter g xs) ≡ filter f xs
  filter-within f g h [] = refl
  filter-within f g h (x ∷ xs) = ground (arith, h x, filter-within f g h xs)

  filter-outside :
      {A : Type 0} (f g : A → Bool)
      → ((x : A) → f x ≡ true → g x ≡ false)
      → (xs : List A) → filter f (filter g xs) ≡ []
  filter-outside f g h [] = refl
  filter-outside f g h (x ∷ xs) = ground (arith, h x, filter-outside f g h xs)

  survives-of_tx :
      (log : List RedoRecord) (tx : ℕ) (t : Tuple)
      → of_tx tx t ≡ true
      → survives log t ≡ (has_commit tx log && not (has_rollback tx log))
  survives-of_tx log tx t own = elim (Option-cases (t.tx_id)) [
    | inl e ↦ let impossible = rw (of_tx, e) at own in cc
    | inr (row_tx, e) ↦ rw (survives, e, (nat_eq.beq_iff row_tx tx).0 (rw (of_tx, e) at own)) refl
  ]

  has_commit-end :
      (log : List RedoRecord) (tx scn : ℕ)
      → has_commit tx (log ++ (RedoRecord.commit tx scn ∷ [])) ≡ true
  has_commit-end [] tx scn = ground arith
  has_commit-end (RedoRecord.begin t s ∷ log) tx scn = has_commit-end log tx scn
  has_commit-end (RedoRecord.insert t s n vs i ∷ log) tx scn = has_commit-end log tx scn
  has_commit-end (RedoRecord.rollback t s ∷ log) tx scn = has_commit-end log tx scn
  has_commit-end (RedoRecord.commit t s ∷ log) tx scn = ground (arith, has_commit-end log tx scn)

  has_rollback-end :
      (log : List RedoRecord) (tx c scn : ℕ)
      → has_rollback tx (log ++ (RedoRecord.commit c scn ∷ [])) ≡ has_rollback tx log
  has_rollback-end [] tx c scn = refl
  has_rollback-end (RedoRecord.begin t s ∷ log) tx c scn = has_rollback-end log tx c scn
  has_rollback-end (RedoRecord.insert t s n vs i ∷ log) tx c scn = has_rollback-end log tx c scn
  has_rollback-end (RedoRecord.commit t s ∷ log) tx c scn = has_rollback-end log tx c scn
  has_rollback-end (RedoRecord.rollback t s ∷ log) tx c scn =
      ground (arith, has_rollback-end log tx c scn)

  logged_rows-end :
      (log : List RedoRecord) (name : String) (c scn : ℕ)
      → logged_rows name (log ++ (RedoRecord.commit c scn ∷ [])) ≡ logged_rows name log
  logged_rows-end [] name c scn = refl
  logged_rows-end (RedoRecord.begin t s ∷ log) name c scn = logged_rows-end log name c scn
  logged_rows-end (RedoRecord.commit t s ∷ log) name c scn = logged_rows-end log name c scn
  logged_rows-end (RedoRecord.rollback t s ∷ log) name c scn = logged_rows-end log name c scn
  logged_rows-end (RedoRecord.insert t s n vs i ∷ log) name c scn =
      ground (arith, logged_rows-end log name c scn)

  -- Durability: on a log whose last line has its newline, when serde_json reads back what COMMIT
  -- writes, and no record on file or in the buffer rolls the transaction back, recovery into an
  -- empty database puts into every table all the rows that the records insert there for the
  -- transaction, in the order of the records.
  pub commit-recovered :
      (m : TransactionManager) (tx : ℕ) (name : String) (fresh : TransactionManager)
      → let log = parse_lines m.redo_file ++ m.redo_buffer in
        m.redo_ended ≡ true
        → All RoundTrips (m.redo_buffer ++ (RedoRecord.commit tx (wrap_u64 (m.scn + 1)) ∷ []))
        → has_rollback tx log ≡ false
        → filter (of_tx tx) (table_or_new (recover (some (commit m tx).redo_file) [] fresh).0 name)
          ≡ filter (of_tx tx) (logged_rows name log)
  commit-recovered m tx name fresh ended h undone =
      let log = parse_lines m.redo_file ++ m.redo_buffer in
      let scn = wrap_u64 (m.scn + 1) in
      let read =
        commit-logged m tx ended h ∙ sym (append_assoc (parse_lines m.redo_file) m.redo_buffer _) in
      rw (recover-parsed, read, logged_rows-end log name tx scn)
        (filter-within (of_tx tx) _
          (λ t own.
            rw
              (
                survives-of_tx _ tx t own,
                has_commit-end log tx scn,
                has_rollback-end log tx tx scn,
                undone,
              )
              refl)
          (logged_rows name log))

  -- Atomicity: whatever the log file holds, recovery into an empty database leaves no row of a
  -- transaction in a table when the readable records have no commit of it.
  pub uncommitted_removed :
      (lines : List String) (tx : ℕ) (name : String) (fresh : TransactionManager)
      → has_commit tx (parse_lines lines) ≡ false
      → filter (of_tx tx) (table_or_new (recover (some lines) [] fresh).0 name) ≡ []
  uncommitted_removed lines tx name fresh h = rw recover-parsed (
      filter-outside (of_tx tx) _
        (λ t own. rw (survives-of_tx (parse_lines lines) tx t own, h) refl)
        (logged_rows name (parse_lines lines)))
