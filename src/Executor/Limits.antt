-- ===== src/Executor/Limits.antt =====
-- LIMIT and OFFSET of src/executor.rs in terms of the rows of the child.
use mathlib.Core.Path.{subst}
use volcano_db.Base.{ℕ, zero, suc, ◌≡◌, refl, ap, some, List, [], ◌∷◌, take, drop}
use volcano_db.Platform.{Platform}
use volcano_db.Outcome.{ok}
use volcano_db.Storage.{Tuple}
use volcano_db.Executor.Defs.{ExecutionContext, Executor, limit}
use volcano_db.Executor.Flow.{emit, flow_of, take_flow, limit_flow, collect, meaning}
use volcano_db.Executor.Yields.{Settles}
use volcano_db.Executor.Refinement.{run, run-eq-meaning}

module _ ⦃p : Platform⦄ where
  take_flow-rows : (n : ℕ) (ts : List Tuple) → take_flow (some n) (flow_of ts) ≡ flow_of (take n ts)
  take_flow-rows zero ts = refl
  take_flow-rows (suc n) [] = refl
  take_flow-rows (suc n) (t ∷ ts) = ap (emit t) (take_flow-rows n ts)

  limit_flow-rows :
      (n d : ℕ) (ts : List Tuple)
      → limit_flow (some n) d (flow_of ts) ≡ flow_of (take n (drop d ts))
  limit_flow-rows n zero ts = take_flow-rows n ts
  limit_flow-rows zero (suc d) [] = refl
  limit_flow-rows (suc n) (suc d) [] = refl
  limit_flow-rows n (suc d) (t ∷ ts) = limit_flow-rows n d ts

  pub collect-flow_of : (ts : List Tuple) → collect (flow_of ts) ≡ ok ts
  collect-flow_of [] = refl
  collect-flow_of (t ∷ ts) = rw (collect-flow_of ts) refl

  -- Over a child that yields certain rows and then ends, a LIMIT n OFFSET d yields the first n of
  -- the rows after the first d, and fewer where there are fewer, from some amount of fuel on.
  pub run-limit :
      (ctx : ExecutionContext) (child : Executor) (ts : List Tuple) (n d cursor : ℕ)
      → meaning ctx child ≡ ok (flow_of ts)
      → Settles (λ f. run ctx f (limit child (some n) (some d) cursor)) (ok (take n (drop d ts)))
  unfolding meaning
  run-limit ctx child ts n d cursor e =
      subst (Settles (λ f. run ctx f (limit child (some n) (some d) cursor)))
        (rw (e, limit_flow-rows n d ts) (collect-flow_of (take n (drop d ts))))
        (run-eq-meaning ctx (limit child (some n) (some d) cursor))
