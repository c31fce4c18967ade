-- ===== src/Executor/Blocking.antt =====
-- The operators that hold rows back (ORDER BY, aggregation, joins) yield what `meaning` says, once
-- `init` has filled them.
use volcano_db.Base.{
  ℕ, ◌+◌, ◌≡◌, refl, ap, Bool, Option, none, some, String, List, [], ◌∷◌, drop, get_elem?, drop-suc,
  drop-nil,
}
use volcano_db.Platform.{Platform}
use volcano_db.Outcome.{Outcome, ok, stop, ◌>>=◌}
use volcano_db.Catalog.{Schema}
use volcano_db.Storage.{Tuple}
use volcano_db.Planner.Expr.{Expr, eval}
use volcano_db.Planner.Plan.{AggFunc}
use volcano_db.Executor.Agg.{Groups}
use volcano_db.Executor.Defs.{
  ExecutionContext, Executor, sort, nested_loop_join, hash_agg, next, next_step, sort_next,
  group_row, agg_next, join_next, join_advance, join_test,
}
use volcano_db.Executor.Flow.{
  Flow, end, stuck, emit, flow_of, group_flow, emit_outcome, combine, join_keep, join_row,
  join_flow,
}
use volcano_db.Executor.Yields.{Yields, Settles-step, Yields-defer, Yields-test}

module _ ⦃p : Platform⦄ (ctx : ExecutionContext) where
  module _ (child : Executor) (order_by : List (Expr × Bool)) (s : Schema) (rows : List Tuple) where
    sort_from-Yields :
        (rest : List Tuple) (cursor : ℕ)
        → drop cursor rows ≡ rest
        → Yields ctx (sort child order_by s rows cursor) (flow_of rest)
    unfolding next_step sort_next
    sort_from-Yields [] cursor d = (
      sort child order_by s rows cursor,
      Settles-step ctx _ _
          (record { fuel = 0; at = λ f _. rw (drop-nil rows cursor d, sort_next) }),
    )
    sort_from-Yields (t ∷ rest) cursor d =
        let (d', found) = drop-suc rows cursor t rest d in
        (
          sort child order_by s rows (cursor + 1),
          Settles-step ctx _ _ (record { fuel = 0; at = λ f _. rw (found, sort_next) }),
          sort_from-Yields rest (cursor + 1) d',
        )

    pub sort-Yields : Yields ctx (sort child order_by s rows 0) (flow_of rows)
    sort-Yields = sort_from-Yields rows 0 refl

  module _ (child : Executor) (group_by : List Expr) (funcs : List AggFunc) (s : Schema)
      (g : Groups) (ks : List String) where
    agg_row-Yields :
        (cursor : ℕ) (key : String) (rest : Flow)
        → get_elem? ks cursor ≡ some key
        → Yields ctx (hash_agg child group_by funcs s g ks (cursor + 1)) rest
        → (row : Outcome Tuple) → group_row g key ≡ row
        → Yields ctx (hash_agg child group_by funcs s g ks cursor) (emit_outcome row rest)
    unfolding next_step agg_next
    agg_row-Yields cursor key rest found y (ok row) e = (
      hash_agg child group_by funcs s g ks (cursor + 1),
      Settles-step ctx _ _ (record { fuel = 0; at = λ f _. rw (found, agg_next, e) }),
      y,
    )
    agg_row-Yields cursor key rest found y (stop x) e =
        Settles-step ctx _ _ (record { fuel = 0; at = λ f _. rw (found, agg_next, e) })

    agg_from-Yields :
        (rest : List String) (cursor : ℕ)
        → drop cursor ks ≡ rest
        → Yields ctx (hash_agg child group_by funcs s g ks cursor) (group_flow g rest)
    unfolding next_step agg_next
    agg_from-Yields [] cursor d = (
      hash_agg child group_by funcs s g ks cursor,
      Settles-step ctx _ _ (record { fuel = 0; at = λ f _. rw (drop-nil ks cursor d, agg_next) }),
    )
    agg_from-Yields (key ∷ rest) cursor d =
        let (d', found) = drop-suc ks cursor key rest d in
        agg_row-Yields cursor key (group_flow g rest) found (agg_from-Yields rest (cursor + 1) d')
          (group_row g key) refl

    pub agg-Yields : Yields ctx (hash_agg child group_by funcs s g ks 0) (group_flow g ks)
    agg-Yields = agg_from-Yields ks 0 refl

  module _ (right : Executor) (cond : Option Expr) (s : Schema) (rows : List Tuple) where
    abbrev joined : Executor → Option Tuple → ℕ → Executor
    joined left l cursor = nested_loop_join left right cond s rows l cursor

    pub join_done-Yields : (left : Executor) (cursor : ℕ) → Yields ctx (joined left none cursor) end
    unfolding next_step join_next
    join_done-Yields left cursor =
        (joined left none cursor, Settles-step ctx _ _ (record { fuel = 0; at = λ f _. refl }))

    -- One left row, from some right row on; `rest` is what comes after it.
    join_keep-Yields :
        (c : Option Expr) (ex other : Executor) (t : Tuple) (rest : Flow)
        → Yields ctx other rest
        → ((f : ℕ) → next_step (next f ctx) ctx ex ≡ join_test (next f ctx) c s t other)
        → Yields ctx ex (join_keep c s t rest)
    unfolding join_test
    join_keep-Yields none ex other t rest y step =
        (other, Settles-step ctx _ _ (record { fuel = 0; at = λ f _. step f }), y)
    join_keep-Yields (some e) ex other t rest y step =
        Yields-test ctx ex other t rest y (eval e t s) 0 (λ f _. step f)

    module _ (left : Executor) (l : Tuple) (rest : Flow) where
      join_row-Yields :
          (todo : List Tuple) (cursor : ℕ)
          → drop cursor rows ≡ todo
          → ((n : ℕ) → get_elem? rows n ≡ none → Yields ctx (joined left (some l) n) rest)
          → Yields ctx (joined left (some l) cursor) (join_row cond s l todo rest)
      unfolding next_step join_next
      join_row-Yields [] cursor d after = after cursor (drop-nil rows cursor d)
      join_row-Yields (r ∷ todo) cursor d after =
          let (d', found) = drop-suc rows cursor r todo d in
          join_keep-Yields cond (joined left (some l) cursor) (joined left (some l) (cursor + 1))
            (combine l r) (join_row cond s l todo rest) (join_row-Yields todo (cursor + 1) d' after)
            (λ f. rw (found, join_next))

    -- The state once the left child has handed over `l` and still yields `fl`.
    pub join-Yields :
        (fl : Flow) (left : Executor) (l : Tuple)
        → Yields ctx left fl
        → Yields ctx (joined left (some l) 0) (join_row cond s l rows (join_flow cond s rows fl))
    unfolding next_step join_next join_advance
    join-Yields end left l (c, h) = join_row-Yields left l end rows 0 refl (λ n found.
        Yields-defer ctx (joined left (some l) n) (joined c none 0) h.fuel
          (λ f le.
            rw (found, join_next)
              (ap (λ q. q >>= join_advance (next f ctx) right cond s rows) (h.at f le)))
          end (join_done-Yields c 0))
    join-Yields (stuck x) left l h = join_row-Yields left l (stuck x) rows 0 refl (λ n found.
        Settles-step ctx _ _ (record {
          fuel = h.fuel;
          at = λ f le.
              rw (found, join_next)
                (ap (λ q. q >>= join_advance (next f ctx) right cond s rows) (h.at f le));
        }))
    join-Yields (emit t fl) left l (c, h, y) =
        join_row-Yields left l (join_flow cond s rows (emit t fl)) rows 0 refl (λ n found.
          Yields-defer ctx (joined left (some l) n) (joined c (some t) 0) h.fuel
            (λ f le.
              rw (found, join_next)
                (ap (λ q. q >>= join_advance (next f ctx) right cond s rows) (h.at f le)))
            (join_flow cond s rows (emit t fl)) (join-Yields fl c t y))
