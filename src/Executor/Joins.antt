-- ===== src/Executor/Joins.antt =====
-- The nested loop join of src/executor.rs against the product of the two inputs.
use mathlib.Core.Path.{subst}
use volcano_db.Base.{
  ℕ, ◌≡◌, ◌∙◌, refl, ap, sym, Bool, true, false, Option, none, some, List, [], ◌∷◌, ◌++◌, map,
  filter, filter-append, All, All-split, if◌then◌else◌,
}
use volcano_db.Platform.{Platform}
use volcano_db.Outcome.{Outcome, ok, stop}
use volcano_db.Catalog.{Schema}
use volcano_db.Storage.{Value, Tuple, is_truthy}
use volcano_db.Planner.Expr.{Expr, eval}
use volcano_db.Executor.Defs.{ExecutionContext, Executor, nested_loop_join}
use volcano_db.Executor.Flow.{
  flow_of, meaning, combine, join_keep, join_row, join_flow, first_row, Flow, emit, collect,
}
use volcano_db.Executor.Yields.{Settles}
use volcano_db.Executor.Limits.{collect-flow_of}
use volcano_db.Executor.Refinement.{run, run-eq-meaning}

module _ ⦃p : Platform⦄ where
  -- Every left row with every right row, the right ones running faster.
  abbrev pub product : List Tuple → List Tuple → List Tuple
  product [] rs = []
  product (l ∷ ls) rs = map (combine l) rs ++ product ls rs

  abbrev pub truthy : Outcome Value → Bool
  truthy (ok v) = is_truthy v
  truthy (stop x) = false

  -- The pair satisfies the condition of the join, where there is one.
  abbrev pub passes : Option Expr → Schema → Tuple → Bool
  passes none s row = true
  passes (some c) s row = truthy (eval c row s)

  abbrev pub Evaluates : Option Expr → Schema → Tuple → Type 0
  Evaluates none s row = Unit
  Evaluates (some c) s row = (v : Value) × (eval c row s ≡ ok v)

  module _ (cond : Option Expr) (s : Schema) where
    join_keep-passes :
        (row : Tuple) (rest : Flow)
        → Evaluates cond s row
        → join_keep cond s row rest ≡ (if passes cond s row then emit row rest else rest)
    join_keep-passes row rest h = go cond h
      where
        go :
            (cond : Option Expr)
            → Evaluates cond s row
            → join_keep cond s row rest ≡ (if passes cond s row then emit row rest else rest)
        go none h = refl
        go (some c) (v, e) = rw e refl

    join_row-filter :
        (l : Tuple) (rs ts : List Tuple)
        → All (Evaluates cond s) (map (combine l) rs)
        → join_row cond s l rs (flow_of ts)
          ≡ flow_of (filter (passes cond s) (map (combine l) rs) ++ ts)
    join_row-filter l [] ts h = refl
    join_row-filter l (r ∷ rs) ts (here, h) =
        join_keep-passes (combine l r) _ here
        ∙ ap (λ fl. if passes cond s (combine l r) then emit (combine l r) fl else fl)
            (join_row-filter l rs ts h)
        ∙ chosen (passes cond s (combine l r))
      where
        more : List Tuple
        more = filter (passes cond s) (map (combine l) rs)

        chosen :
            (b : Bool)
            → (if b then emit (combine l r) (flow_of (more ++ ts)) else flow_of (more ++ ts))
              ≡ flow_of ((if b then combine l r ∷ more else more) ++ ts)
        chosen true = refl
        chosen false = refl

    join_flow-filter :
        (ls rs : List Tuple)
        → All (Evaluates cond s) (product ls rs)
        → join_flow cond s rs (flow_of ls) ≡ flow_of (filter (passes cond s) (product ls rs))
    join_flow-filter [] rs h = refl
    join_flow-filter (l ∷ ls) rs h =
        let (here, later) = All-split (Evaluates cond s) (map (combine l) rs) (product ls rs) h in
        ap (join_row cond s l rs) (join_flow-filter ls rs later)
        ∙ join_row-filter l rs (filter (passes cond s) (product ls rs)) here
        ∙ ap flow_of (sym (filter-append (passes cond s) (map (combine l) rs) (product ls rs)))

    -- Over two children that yield certain rows and then end, and where the condition evaluates on
    -- every pair, the join yields just the pairs that satisfy the condition, or all without one: the
    -- left rows in order, and for each the right rows in order.
    pub run-join :
        (ctx : ExecutionContext) (left right : Executor) (ls rs old : List Tuple)
        (current : Option Tuple) (cursor : ℕ)
        → meaning ctx left ≡ ok (flow_of ls)
        → meaning ctx right ≡ ok (flow_of rs)
        → All (Evaluates cond s) (product ls rs)
        → Settles
            (λ f. run ctx f (nested_loop_join left right cond s old current cursor))
            (ok (filter (passes cond s) (product ls rs)))
    unfolding meaning
    run-join ctx left right ls rs old current cursor hl hr h =
        subst (Settles (λ f. run ctx f (nested_loop_join left right cond s old current cursor)))
          (rw (hl, hr, collect-flow_of rs, first ls (join_flow cond s rs (flow_of ls)))
            (ap collect (join_flow-filter ls rs h) ∙ collect-flow_of _))
          (run-eq-meaning ctx (nested_loop_join left right cond s old current cursor))
      where
        first : (ls : List Tuple) (fl : Flow) → first_row (flow_of ls) fl ≡ ok fl
        first [] fl = refl
        first (l ∷ ls) fl = refl
