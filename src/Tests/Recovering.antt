-- ===== src/Tests/Recovering.antt =====
-- The theorems about recovery at concrete logs.
use volcano_db.Base.{
  leb, ◌≡◌, refl, arith, false, none, some, [], ◌∷◌, filter, string_eq, nat_eq, All, true, List,
  String, ◌+◌,
}
use volcano_db.Base.Int.{pos}
use volcano_db.Storage.{int, varchar}
use volcano_db.Tx.Records.{RedoRecord}
use volcano_db.Tx.Manager
use volcano_db.Tx.Manager.{TransactionManager, new_manager, commit, wrap_u64}
use volcano_db.Tx.Visibility.{IsConsistent}
use volcano_db.Recovery.{table_or_new, recover, recover_records, parse_lines}
use volcano_db.Recovery.Survivors.{LogOf, survives, logged_rows, recover-rows, recover_records-rows}
use volcano_db.Recovery.Restart.{recover_records-IsConsistent, restart_hides_first}
use volcano_db.Recovery.Durable.{
  RoundTrips, of_tx, commit-logged, commit-recovered, uncommitted_removed, commit-logged_torn,
}
use volcano_db.Tests.Evaluate.{everything}
use volcano_db.Tests.Fixture.{whole_numbers, short_lines, row, users}

abbrev inserted_row : RedoRecord
inserted_row = RedoRecord.insert 1 0 "users" (int (pos 4) ∷ varchar "d" ∷ []) 4

-- Transaction 1 has inserted a row and its records are still in the buffer.
abbrev in_flight : TransactionManager
in_flight = record (new_manager [] true) {
  redo_buffer = RedoRecord.begin 1 0 ∷ inserted_row ∷ [];
  next_tx_id = 2;
}

All-RoundTrips : All RoundTrips (RedoRecord.begin 1 0 ∷ inserted_row ∷ RedoRecord.commit 1 1 ∷ [])
unfolding everything
All-RoundTrips = (
  record { line = "begin"; written = refl; not_blank = refl; read = refl },
  (
    record { line = "insert"; written = refl; not_blank = refl; read = refl },
    (record { line = "commit"; written = refl; not_blank = refl; read = refl }, tt),
  ),
)

commit-logged_example :
    parse_lines (commit in_flight 1).redo_file
    ≡ RedoRecord.begin 1 0 ∷ inserted_row ∷ RedoRecord.commit 1 1 ∷ []
unfolding everything
commit-logged_example = commit-logged in_flight 1 refl All-RoundTrips

-- The log ends in the first half of a record.
abbrev cut_off : TransactionManager
cut_off = record in_flight { redo_file = "begin" ∷ "ins" ∷ []; redo_ended = false }

commit-logged_torn_example :
    parse_lines (commit cut_off 1).redo_file
    ≡ RedoRecord.begin 1 0 ∷ inserted_row ∷ RedoRecord.commit 1 1 ∷ []
unfolding everything
commit-logged_torn_example =
    commit-logged_torn cut_off 1 ("begin" ∷ []) "ins" (RedoRecord.begin 1 0)
      (inserted_row ∷ RedoRecord.commit 1 1 ∷ []) refl refl refl refl All-RoundTrips.1

commit-recovered_example :
    filter (of_tx 1) (
      table_or_new
        (recover (some (commit in_flight 1).redo_file) [] (new_manager [] true)).0
        "users")
    ≡ row 4 "d" (some 1) ∷ []
unfolding everything
commit-recovered_example =
    commit-recovered in_flight 1 "users" (new_manager [] true) refl All-RoundTrips refl

uncommitted_removed_example :
    filter
      (of_tx 1)
      (table_or_new (recover (some ("begin" ∷ "insert" ∷ [])) [] (new_manager [] true)).0 "users")
    ≡ []
unfolding everything
uncommitted_removed_example =
    uncommitted_removed ("begin" ∷ "insert" ∷ []) 1 "users" (new_manager [] true) refl

recover-rows_example :
    let lines : List String = "begin" ∷ "" ∷ "insert" ∷ "torn" ∷ "commit" ∷ [] in
    (log : List RedoRecord) × LogOf lines log
    × ((name : String)
        → table_or_new (recover (some lines) [] (new_manager [] true)).0 name
          ≡ filter (survives log) (logged_rows name log))
recover-rows_example =
    recover-rows ("begin" ∷ "" ∷ "insert" ∷ "torn" ∷ "commit" ∷ []) (new_manager [] true)

recover_records-rows_example :
    table_or_new
      (recover_records
        (inserted_row ∷ RedoRecord.commit 1 1 ∷ [])
        (("users", users) ∷ [])
        (new_manager [] true)).0
      "users"
    ≡ row 3 "c" none ∷ row 1 "a" none ∷ row 0 "z" none ∷ row 4 "d" (some 1) ∷ []
unfolding everything
recover_records-rows_example =
    recover_records-rows inserted_row (RedoRecord.commit 1 1 ∷ []) (("users", users) ∷ [])
      (new_manager [] true) "users"

recover_records-IsConsistent_example :
    IsConsistent
      (recover_records
        (inserted_row ∷ RedoRecord.commit 1 1 ∷ [])
        []
        (new_manager ("a" ∷ []) true)).1
recover_records-IsConsistent_example =
    recover_records-IsConsistent (inserted_row ∷ RedoRecord.commit 1 1 ∷ []) [] ("a" ∷ []) true
      (omega arith, (omega arith, tt))

restart_hides_first_example :
    let m =
      (recover
        (some ("begin" ∷ "insert" ∷ "commit" ∷ []))
        []
        (new_manager ("begin" ∷ "insert" ∷ "commit" ∷ []) true)).1 in
    let begun = (Manager.begin m).1 in
    ((Manager.begin m).0 ≡ 1)
    × (Manager.is_visible begun (some 1) none 5 ≡ false)
    × (Manager.is_visible (Manager.commit begun 1) (some 1) none 5 ≡ leb (wrap_u64 (m.scn + 1)) 5)
restart_hides_first_example = restart_hides_first ("begin" ∷ "insert" ∷ "commit" ∷ []) true 5
