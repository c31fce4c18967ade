-- ===== src/Executor/Pipeline.antt =====
-- The operators that hand rows on one by one: scans, WHERE, the target list and LIMIT / OFFSET yield
-- what `meaning` says.
use volcano_db.Base.{
  ℕ, zero, suc, ◌+◌, ◌-◌, ◌≤◌, ◌<◌, ◌≡◌, refl, ◌∙◌, ap, true, false, Option, none, some, arith,
  List, ltb,
}
use volcano_db.Platform.{Platform}
use volcano_db.Outcome.{Outcome, ok, stop, ◌>>=◌}
use volcano_db.Catalog.{Schema}
use volcano_db.Storage.{Value, Tuple, plain_tuple}
use volcano_db.Planner.Expr.{Expr, eval}
use volcano_db.Planner.Plan.{unwrap_or}
use volcano_db.Executor.Agg.{eval_all}
use volcano_db.Executor.Defs.{
  ExecutionContext, Executor, Pull, filter, project, limit, next, next_step, filter_test,
  filter_next, project_row, project_next, limit_next, limit_skip, limit_take, limit_reached,
}
use volcano_db.Executor.Flow.{
  Flow, end, stuck, emit, filter_flow, emit_values, project_flow, take_flow, limit_flow,
}
use volcano_db.Executor.Yields.{
  Settles, Yields, Settles-step, Settles-bind, Yields-defer, Yields-test,
}

module _ ⦃p : Platform⦄ (ctx : ExecutionContext) where
  module _ (pred : Expr) (s : Schema) where
    pub filter-Yields :
        (fl : Flow) (child : Executor)
        → Yields ctx child fl
        → Yields ctx (filter child pred s) (filter_flow pred s fl)
    unfolding next_step filter_next
    filter-Yields end child (c, h) = (
      filter c pred s,
      Settles-bind ctx (filter child pred s) child (λ f. filter_test (next f ctx) pred s) _
          (λ f. refl) h (λ f. refl),
    )
    filter-Yields (stuck e) child h =
        Settles-bind ctx (filter child pred s) child (λ f. filter_test (next f ctx) pred s) _
          (λ f. refl) h (λ f. refl)
    filter-Yields (emit t fl) child (c, h, rest) =
        Yields-test ctx (filter child pred s) (filter c pred s) t (filter_flow pred s fl)
          (filter-Yields fl c rest) (eval pred t s) h.fuel
          (λ f le. ap (λ o. o >>= filter_test (next f ctx) pred s) (h.at f le))

  module _ (es : List Expr) (s : Schema) where
    project_emit :
        (ex child : Executor) (t : Tuple) (fl : Flow)
        → Yields ctx (project child es s) fl
        → (n : ℕ)
        → ((f : ℕ) → n ≤ f → next_step (next f ctx) ctx ex ≡ project_row es s (some t, child))
        → (vs : Outcome (List Value)) → eval_all es t s ≡ vs
        → Yields ctx ex (emit_values vs fl)
    unfolding project_row
    project_emit ex child t fl rest n step (ok vs) e = (
      project child es s,
      Settles-step ctx ex _ (record {
        fuel = n;
        at = λ f le.
            step f le ∙ ap (λ o. o >>= λ vs. ok (some (plain_tuple vs), project child es s)) e;
      }),
      rest,
    )
    project_emit ex child t fl rest n step (stop x) e = Settles-step ctx ex _ (record {
      fuel = n;
      at = λ f le.
          step f le ∙ ap (λ o. o >>= λ vs. ok (some (plain_tuple vs), project child es s)) e;
    })

    pub project-Yields :
        (fl : Flow) (child : Executor)
        → Yields ctx child fl
        → Yields ctx (project child es s) (project_flow es s fl)
    unfolding next_step project_next
    project-Yields end child (c, h) = (
      project c es s,
      Settles-bind ctx (project child es s) child (λ f. project_row es s) _ (λ f. refl) h
          (λ f. refl),
    )
    project-Yields (stuck e) child h =
        Settles-bind ctx (project child es s) child (λ f. project_row es s) _ (λ f. refl) h
          (λ f. refl)
    project-Yields (emit t fl) child (c, h, rest) =
        project_emit (project child es s) c t (project_flow es s fl) (project-Yields fl c rest)
          h.fuel (λ f le. ap (λ o. o >>= project_row es s) (h.at f le)) (eval_all es t s) refl

  -- The three branches of LIMIT / OFFSET.
  module _ (rec : Executor → Outcome Pull) (child : Executor) (l o : Option ℕ) (cursor : ℕ) where
    limit_next-skip :
        cursor < unwrap_or o 0
        → limit_next rec child l o cursor ≡ (rec child >>= limit_skip rec l o cursor)
    unfolding limit_next
    limit_next-skip h =
        let t : ltb cursor (unwrap_or o 0) ≡ true = ground arith in rw (t, limit_next)

    limit_next-stop :
        unwrap_or o 0 ≤ cursor
        → limit_reached l (cursor - unwrap_or o 0) ≡ true
        → limit_next rec child l o cursor ≡ ok (none, limit child l o cursor)
    unfolding limit_next
    limit_next-stop h r =
        let t : ltb cursor (unwrap_or o 0) ≡ false = ground arith in rw (t, r, limit_next)

    limit_next-take :
        unwrap_or o 0 ≤ cursor
        → limit_reached l (cursor - unwrap_or o 0) ≡ false
        → limit_next rec child l o cursor ≡ (rec child >>= limit_take l o cursor)
    unfolding limit_next
    limit_next-take h r =
        let t : ltb cursor (unwrap_or o 0) ≡ false = ground arith in rw (t, r, limit_next)

  module _ (o : Option ℕ) where
    -- A child that is asked for a row that is past the offset and below the limit.
    limit_pull :
        (l : Option ℕ) (cursor : ℕ) (child : Executor) {q : Outcome Pull} (r : Outcome Pull)
        → unwrap_or o 0 ≤ cursor
        → limit_reached l (cursor - unwrap_or o 0) ≡ false
        → Settles (λ f. next f ctx child) q
        → (q >>= limit_take l o cursor) ≡ r
        → Settles (λ f. next f ctx (limit child l o cursor)) r
    unfolding next_step
    limit_pull l cursor child r le reached h e =
        Settles-bind ctx (limit child l o cursor) child (λ f. limit_take l o cursor) r
          (λ f. limit_next-take (next f ctx) child l o cursor le reached) h (λ f. e)

    take-Yields :
        (left n cursor : ℕ) (fl : Flow) (child : Executor)
        → unwrap_or o 0 + n ≡ left + cursor
        → unwrap_or o 0 ≤ cursor
        → Yields ctx child fl
        → Yields ctx (limit child (some n) o cursor) (take_flow (some left) fl)
    unfolding next_step limit_take
    take-Yields zero n cursor fl child e le y = (
      limit child (some n) o cursor,
      Settles-step ctx _ _ (record {
        fuel = 0;
        at = λ f _. limit_next-stop (next f ctx) child (some n) o cursor le (ground arith);
      }),
    )
    take-Yields (suc left) n cursor end child e le (c, h) =
        (limit c (some n) o cursor, limit_pull (some n) cursor child _ le (ground arith) h refl)
    take-Yields (suc left) n cursor (stuck x) child e le h =
        limit_pull (some n) cursor child _ le (ground arith) h refl
    take-Yields (suc left) n cursor (emit t fl) child e le (c, h, rest) = (
      limit c (some n) o (cursor + 1),
      limit_pull (some n) cursor child _ le (ground arith) h refl,
      take-Yields left n (cursor + 1) fl c (omega arith) (omega arith) rest,
    )

    -- With no limit everything past the offset is handed on.
    all-Yields :
        (cursor : ℕ) (fl : Flow) (child : Executor)
        → unwrap_or o 0 ≤ cursor
        → Yields ctx child fl
        → Yields ctx (limit child none o cursor) fl
    unfolding limit_take
    all-Yields cursor end child le (c, h) =
        (limit c none o cursor, limit_pull none cursor child _ le refl h refl)
    all-Yields cursor (stuck x) child le h = limit_pull none cursor child _ le refl h refl
    all-Yields cursor (emit t fl) child le (c, h, rest) = (
      limit c none o (cursor + 1),
      limit_pull none cursor child _ le refl h refl,
      all-Yields (cursor + 1) fl c (omega arith) rest,
    )

    past_offset-Yields :
        (l : Option ℕ) (cursor : ℕ) (fl : Flow) (child : Executor)
        → cursor ≡ unwrap_or o 0
        → Yields ctx child fl
        → Yields ctx (limit child l o cursor) (take_flow l fl)
    past_offset-Yields none cursor fl child e y = all-Yields cursor fl child (omega arith) y
    past_offset-Yields (some n) cursor fl child e y =
        take-Yields n n cursor fl child (omega arith) (omega arith) y

    module _ (l : Option ℕ) where
      -- A child that is asked for a row before the offset.
      skip_pull :
          (cursor : ℕ) (child : Executor) {q : Outcome Pull} (r : Outcome Pull)
          → cursor < unwrap_or o 0
          → Settles (λ f. next f ctx child) q
          → ((f : ℕ) → (q >>= limit_skip (next f ctx) l o cursor) ≡ r)
          → Settles (λ f. next f ctx (limit child l o cursor)) r
      unfolding next_step
      skip_pull cursor child r lt h =
          Settles-bind ctx (limit child l o cursor) child (λ f. limit_skip (next f ctx) l o cursor)
            r (λ f. limit_next-skip (next f ctx) child l o cursor lt) h

      skip-Yields :
          (d cursor : ℕ) (fl : Flow) (child : Executor)
          → d + cursor ≡ unwrap_or o 0
          → Yields ctx child fl
          → Yields ctx (limit child l o cursor) (limit_flow l d fl)
      unfolding next_step limit_skip
      skip-Yields zero cursor fl child e y = past_offset-Yields l cursor fl child (omega arith) y
      skip-Yields (suc d) cursor end child e (c, h) =
          (limit c l o cursor, skip_pull cursor child _ (omega arith) h (λ f. refl))
      skip-Yields (suc d) cursor (stuck x) child e h =
          skip_pull cursor child _ (omega arith) h (λ f. refl)
      skip-Yields (suc d) cursor (emit t fl) child e (c, h, rest) =
          Yields-defer ctx (limit child l o cursor) (limit c l o (cursor + 1)) h.fuel
            (λ f le.
              limit_next-skip (next f ctx) child l o cursor (omega arith)
              ∙ ap (λ q. q >>= limit_skip (next f ctx) l o cursor) (h.at f le))
            (limit_flow l d fl) (skip-Yields d (cursor + 1) fl c (omega arith) rest)

      -- From a fresh cursor.
      pub limit-Yields :
          (fl : Flow) (child : Executor)
          → Yields ctx child fl
          → Yields ctx (limit child l o 0) (limit_flow l (unwrap_or o 0) fl)
      limit-Yields fl child y = skip-Yields (unwrap_or o 0) 0 fl child (omega arith) y
