-- ===== src/Executor/Scans.antt =====
-- The leaves of an operator tree: the dummy scan and the sequential scan yield what `meaning` says.
use volcano_db.Base.{
  ℕ, ◌+◌, ◌≡◌, refl, ◌∙◌, ap, true, false, String, none, some, List, [], ◌∷◌, filter as keep_if,
  drop, string_eq, Bool-cases, inl, inr, drop-suc,
}
use volcano_db.HashMap
use volcano_db.Platform.{Platform}
use volcano_db.Outcome.{err, ok, table_not_in_storage}
use volcano_db.Storage.{Tuple, plain_tuple}
use volcano_db.Executor.Defs.{
  ExecutionContext, dummy_scan, seq_scan, sees, next_step, scan_next, scan_from, dummy_next,
}
use volcano_db.Executor.Flow.{end, stuck, emit, flow_of}
use volcano_db.Executor.Yields.{Yields, Settles-step}

module _ ⦃p : Platform⦄ (ctx : ExecutionContext) where
  pub dummy-Yields : Yields ctx (dummy_scan false) (emit (plain_tuple []) end)
  unfolding next_step dummy_next
  dummy-Yields = (
    dummy_scan true,
    Settles-step ctx _ _ (record { fuel = 0; at = λ f _. refl }),
    (dummy_scan true, Settles-step ctx _ _ (record { fuel = 0; at = λ f _. refl })),
  )

  module _ (name : String) where
    pub missing-Yields :
        HashMap.get ctx.tables name ≡ none
        → Yields ctx (seq_scan name 0) (stuck (err (table_not_in_storage name)))
    unfolding next_step scan_next
    missing-Yields e = Settles-step ctx _ _ (record { fuel = 0; at = λ f _. rw (e, scan_next) })

    module _ (rows : List Tuple) (found : HashMap.get ctx.tables name ≡ some rows) where
      scan_next-eq :
          (cursor : ℕ)
          → scan_next ctx name cursor ≡ ok (scan_from ctx name (drop cursor rows) cursor)
      unfolding scan_next
      scan_next-eq cursor = rw (found, scan_next)

      -- The cursor may pass any number of rows that are not seen.
      scan_from-Yields :
          (rest : List Tuple) (cursor at_cursor : ℕ)
          → drop cursor rows ≡ rest
          → scan_next ctx name at_cursor ≡ ok (scan_from ctx name rest cursor)
          → Yields ctx (seq_scan name at_cursor) (flow_of (keep_if (sees ctx) rest))
      unfolding next_step scan_from
      scan_from-Yields [] cursor at_cursor d e =
          (seq_scan name cursor, Settles-step ctx _ _ (record { fuel = 0; at = λ f _. e }))
      scan_from-Yields (t ∷ rest) cursor at_cursor d e =
          let d' = (drop-suc rows cursor t rest d).0 in
          elim (Bool-cases (sees ctx t)) [
            | inl h ↦ rw h (
              seq_scan name (cursor + 1),
              Settles-step ctx _ _ (record { fuel = 0; at = λ f _. e ∙ rw (h, scan_from) }),
              scan_from-Yields rest (cursor + 1) (cursor + 1) d' (
                  scan_next-eq (cursor + 1)
                  ∙ ap (λ ts. ok (scan_from ctx name ts (cursor + 1))) d'),
            )
            | inr h ↦ rw h (scan_from-Yields rest (cursor + 1) at_cursor d' (e ∙ rw (h, scan_from)))
          ]

      -- The scan hands on just the visible rows, in their order.
      pub scan-Yields : Yields ctx (seq_scan name 0) (flow_of (keep_if (sees ctx) rows))
      scan-Yields = scan_from-Yields rows 0 0 refl (scan_next-eq 0)
