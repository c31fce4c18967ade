-- ===== src/Handler/Query.antt =====
-- The `Query` arm of `inner_handle`: with enough fuel it answers with the rows of the plan's meaning.
use mathlib.Core.List.{append_assoc, append-nil}
use mathlib.Core.Path.{subst}
use volcano_db.Base.{◌≡◌, refl, sym, ap, ◌∙◌, List, String, [], ◌∷◌, ◌++◌, map}
use volcano_db.Platform.{Platform}
use volcano_db.Outcome.{Outcome, ok, stop, ◌>>=◌}
use volcano_db.Catalog.{Schema}
use volcano_db.Storage.{Tuple, show_value}
use volcano_db.Planner.Plan.{LogicalPlan, schema}
use volcano_db.Session.{SessionState}
use volcano_db.Executor.Defs.{ExecutionContext, Executor, while_next}
use volcano_db.Executor.Init.{init}
use volcano_db.Executor.Build.{build_executor}
use volcano_db.Executor.Flow.{Flow, end, stuck, emit, collect, fold_flow, meaning}
use volcano_db.Executor.Yields.{Settles, Yields}
use volcano_db.Executor.Drain.{flow-Drains}
use volcano_db.Executor.Refinement.{
  Meets, Meets-bind, Meets-Settles, Same, Holds, Drains-meet, at_once, init-Opens,
}
use volcano_db.Handler.Defs.{DatabaseState, Reply, row_set, push_shown, context_of, run_query}

module _ ⦃p : Platform⦄ where
  abbrev pub shown : Tuple → List String
  shown t = map show_value t.values

  -- The answer to a query by the meaning of its operator tree.
  abbrev pub answer : DatabaseState → SessionState → LogicalPlan → Outcome Reply
  answer db session plan = do
    ex ← build_executor plan db.catalog
    fl ← meaning (context_of db session) ex
    s ← schema plan db.catalog
    ts ← collect fl
    ok (row_set (map (λ c. c.name) s.columns) (map shown ts))

  shown_collects :
      (fl : Flow) (acc : List (List String))
      → fold_flow push_shown acc fl ≡ (collect fl >>= λ ts. ok (acc ++ map shown ts))
  shown_collects end acc = ap ok (sym (append-nil acc))
  shown_collects (stuck x) acc = refl
  shown_collects (emit t fl) acc = shown_collects fl (acc ++ (shown t ∷ [])) ∙ regroup (collect fl)
    where
      regroup :
          (o : Outcome (List Tuple))
          → (o >>= λ ts. ok ((acc ++ (shown t ∷ [])) ++ map shown ts))
            ≡ (o >>= (λ ts. ok (t ∷ ts)) >>= λ ts. ok (acc ++ map shown ts))
      regroup (ok ts) = ap ok (append_assoc acc (shown t ∷ []) (map shown ts))
      regroup (stop x) = refl

  module _ (ctx : ExecutionContext) (headers : List String) where
    -- The loop of the handler over an opened tree, for the given headers.
    loop-Meets :
        (fl : Flow) (c : Executor)
        → Yields ctx c fl
        → Meets Same
            (λ f. while_next f ctx push_shown [] c >>= λ r. ok (row_set headers r.0))
            (collect fl >>= λ ts. ok (row_set headers (map shown ts)))
    loop-Meets fl c y =
        subst (Meets Same (λ f. while_next f ctx push_shown [] c >>= λ r. ok (row_set headers r.0)))
          (ap (λ o. o >>= λ rows. ok (row_set headers rows)) (shown_collects fl [])
            ∙ unpack (collect fl))
          (Meets-bind (Holds ctx) Same (λ f. while_next f ctx push_shown [] c)
            (λ f r. ok (row_set headers r.0)) (λ rows. ok (row_set headers rows))
            (λ r rows e.
              (row_set headers r.0, at_once (ok (row_set headers r.0)), ap (row_set headers) e))
            (fold_flow push_shown [] fl)
            (Drains-meet ctx push_shown [] c (fold_flow push_shown [] fl)
              (flow-Drains ctx push_shown fl [] c y)))
      where
        unpack :
            (o : Outcome (List Tuple))
            → (o >>= (λ ts. ok ([] ++ map shown ts)) >>= λ rows. ok (row_set headers rows))
              ≡ (o >>= λ ts. ok (row_set headers (map shown ts)))
        unpack (ok ts) = refl
        unpack (stop x) = refl

  -- A SELECT is answered, from some amount of fuel on, with the headers of the plan's schema and the
  -- rows of the meaning of its operator tree, or with the failure of the translation, of the
  -- meaning, of the schema or of a row, in this order.
  pub run_query-eq-answer :
      (db : DatabaseState) (session : SessionState) (plan : LogicalPlan)
      → Settles (λ f. run_query f db session plan) (answer db session plan)
  unfolding run_query
  run_query-eq-answer db session plan =
      Meets-Settles (λ f. run_query f db session plan) (answer db session plan)
        (built (build_executor plan db.catalog))
    where
      headers : Schema → List String
      headers s = map (λ c. c.name) s.columns

      ctx : ExecutionContext
      ctx = context_of db session

      opened :
          (c : Executor) (fl : Flow) (o : Outcome Schema)
          → Yields ctx c fl
          → Meets Same
              (λ f.
                o >>= λ s. while_next f ctx push_shown [] c >>= λ r. ok (row_set (headers s) r.0))
              (o >>= λ s. collect fl >>= λ ts. ok (row_set (headers s) (map shown ts)))
      opened c fl (ok s) y = loop-Meets ctx (headers s) fl c y
      opened c fl (stop x) y = at_once (stop x)

      built :
          (b : Outcome Executor)
          → Meets Same
              (λ f. b >>= λ ex. init f ctx ex >>= λ c. schema plan db.catalog >>= λ s.
                while_next f ctx push_shown [] c >>= λ r. ok (row_set (headers s) r.0))
              (b >>= λ ex. meaning ctx ex >>= λ fl. schema plan db.catalog >>= λ s.
                collect fl >>= λ ts. ok (row_set (headers s) (map shown ts)))
      built (stop x) = at_once (stop x)
      built (ok ex) =
          Meets-bind (Yields ctx) Same (λ f. init f ctx ex)
            (λ f c. schema plan db.catalog >>= λ s.
              while_next f ctx push_shown [] c >>= λ r. ok (row_set (headers s) r.0))
            (λ fl. schema plan db.catalog >>= λ s.
              collect fl >>= λ ts. ok (row_set (headers s) (map shown ts)))
            (λ c fl y. opened c fl (schema plan db.catalog) y) (meaning ctx ex) (init-Opens ctx ex)
