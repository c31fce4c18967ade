-- ===== src/Tests/Transactions.antt =====
-- The theorems about the transaction manager at concrete managers.
use volcano_db.Base.{◌≡◌, refl, ◌↔◌, arith, true, false, none, some, [], nat_eq}
use volcano_db.Tx.Manager.{TransactionManager, new_manager, is_visible, begin, commit, rollback}
use volcano_db.Tx.Visibility.{Sees, visible_iff, visible-commit, visible-rollback}
use volcano_db.Tx.Steps.{
  Step, Steps, here, next, begins, commits, IsSound, Steps-IsSound, new_manager-IsSound,
  snapshot_stable,
}
use volcano_db.Tests.Evaluate.{everything}
use volcano_db.Tests.Fixture.{whole_numbers, short_lines}

abbrev begun : TransactionManager
unfolding everything
begun = (begin (new_manager [] true)).1

abbrev two_begun : TransactionManager
unfolding everything
two_begun = (begin begun).1

abbrev one_committed : TransactionManager
unfolding everything
one_committed = commit two_begun 1

two_begun_steps : Steps (new_manager [] true) two_begun
unfolding everything
two_begun_steps = next (next here (begins (omega arith))) (begins (omega arith))

commit-Step : Step two_begun one_committed
unfolding everything
commit-Step = commits 1 refl (omega arith)

Steps-IsSound_example : IsSound one_committed
unfolding everything
Steps-IsSound_example =
    Steps-IsSound (new_manager-IsSound [] true) (next two_begun_steps commit-Step)

one_committed-IsSound : IsSound one_committed
unfolding everything
one_committed-IsSound =
    Steps-IsSound (new_manager-IsSound [] true) (next two_begun_steps commit-Step)

-- The commit happens at SCN 1, behind the back of a query that began at SCN 0.
snapshot_stable_example : is_visible one_committed (some 1) none 0 ≡ false
unfolding everything
snapshot_stable_example =
    snapshot_stable 1 none 0 (Steps-IsSound (new_manager-IsSound [] true) two_begun_steps)
      (omega arith) (next here commit-Step)

visible_iff_example :
    (is_visible one_committed (some 1) (some 2) 1 ≡ true) ↔ Sees one_committed 1 (some 2) 1
visible_iff_example = visible_iff one_committed 1 (some 2) 1 one_committed-IsSound.consistent

visible-commit_example : is_visible (commit two_begun 1) (some 1) (some 2) 1 ≡ true
unfolding everything
visible-commit_example = visible-commit two_begun 1 1 (some 2) 1

visible-rollback_example : is_visible (rollback two_begun 1) (some 1) (some 2) 9 ≡ false
unfolding everything
visible-rollback_example = visible-rollback two_begun 1 1 (some 2) 9
