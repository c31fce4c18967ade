-- ===== src/Executor/Refinement.antt =====
-- `init` followed by `next` until it answers `None` computes the meaning of an operator tree,
-- whatever state the tree is in, failures included.
use volcano_db.Base.{
  ℕ, false, max, ◌≡◌, refl, ◌∙◌, ap, Option, none, some, List, [], ◌++◌, arith, string_eq,
  Option-cases, inl, inr,
}
use mathlib.Core.Path.{subst}
use volcano_db.HashMap
use volcano_db.HashMap.{keys}
use volcano_db.Platform.{Platform}
use volcano_db.Outcome.{Outcome, ok, stop, ◌>>=◌}
use volcano_db.Catalog.{Schema}
use volcano_db.Planner.Expr.{Expr}
use volcano_db.Storage.{Tuple}
use volcano_db.Planner.Plan.{unwrap_or}
use volcano_db.Executor.Agg.{Groups, no_groups, agg_row, agg_finish}
use volcano_db.Executor.Order.{compare_rows, sort_by}
use volcano_db.Executor.Defs.{
  ExecutionContext, Executor, Pull, dummy_scan, seq_scan, filter, project, limit, sort,
  nested_loop_join, hash_agg, next, while_next, push,
}
use volcano_db.Executor.Init.{init}
use volcano_db.Executor.Flow.{
  Flow, end, stuck, emit, flow_of, filter_flow, project_flow, limit_flow, join_flow, group_flow,
  collect, fold_flow, first_row, meaning,
}
use volcano_db.Executor.Yields.{Settles, Yields}
use volcano_db.Executor.Pipeline.{filter-Yields, project-Yields, limit-Yields}
use volcano_db.Executor.Scans.{dummy-Yields, missing-Yields, scan-Yields}
use volcano_db.Executor.Blocking.{sort-Yields, agg-Yields, join-Yields, join_done-Yields}
use volcano_db.Executor.Drain.{Drains, flow-Drains, push_collects}

-- With enough fuel the call has a value that stands in the relation to the expected one, or it
-- fails as expected.
abbrev pub Meets : {A B : Type 0} → (A → B → Type 0) → (ℕ → Outcome A) → Outcome B → Type 0
Meets {A} P call (ok b) = (a : A) × Settles call (ok a) × P a b
Meets P call (stop x) = Settles call (stop x)

module _ {A B C D : Type 0} (P : A → B → Type 0) (Q : C → D → Type 0) where
  -- One call after the other.
  module _ (call : ℕ → Outcome A) (k : ℕ → A → Outcome C) (K : B → Outcome D)
      (later : (a : A) (b : B) → P a b → Meets Q (λ f. k f a) (K b)) where
    then-Settles :
        (a : A) (r : Outcome C)
        → Settles call (ok a)
        → Settles (λ f. k f a) r
        → Settles (λ f. call f >>= k f) r
    then-Settles a r h d = record {
      fuel = max h.fuel d.fuel;
      at = λ f le. ap (λ o. o >>= k f) (h.at f (omega arith)) ∙ d.at f (omega arith);
    }

    Meets-then :
        (a : A) (m : Outcome D)
        → Settles call (ok a)
        → Meets Q (λ f. k f a) m
        → Meets Q (λ f. call f >>= k f) m
    Meets-then a (ok d) h (c, settled, q) = (c, then-Settles a (ok c) h settled, q)
    Meets-then a (stop x) h settled = then-Settles a (stop x) h settled

    pub Meets-bind : (m : Outcome B) → Meets P call m → Meets Q (λ f. call f >>= k f) (m >>= K)
    Meets-bind (ok b) (a, h, q) = Meets-then a (K b) h (later a b q)
    Meets-bind (stop x) h = record { fuel = h.fuel; at = λ f le. ap (λ o. o >>= k f) (h.at f le) }

abbrev pub Same {ℓ} : {A : Type ℓ} → A → A → Type ℓ
Same a b = a ≡ b

pub Meets-Settles :
    {A : Type 0} (call : ℕ → Outcome A) (m : Outcome A) → Meets Same call m → Settles call m
Meets-Settles call (ok b) (a, h, e) = record { fuel = h.fuel; at = λ f le. h.at f le ∙ ap ok e }
Meets-Settles call (stop x) h = h

pub at_once {ℓ} : {A : Type ℓ} (a : A) → Settles (λ f. a) a
at_once a = record { fuel = 0; at = λ f _. refl }

module _ ⦃p : Platform⦄ (ctx : ExecutionContext) where
  abbrev pub Opens : Executor → Outcome Flow → Type 0
  Opens ex = Meets (Yields ctx) (λ f. init f ctx ex)

  -- The loop's variables come out as expected; the child's state is not looked at again.
  abbrev pub Holds : {S : Type 0} → S × Executor → S → Type 0
  Holds r s = r.0 ≡ s

  pub Drains-meet :
      {S : Type 0} (body : S → Tuple → Outcome S) (s : S) (ex : Executor) (m : Outcome S)
      → Drains ctx body s ex m
      → Meets Holds (λ f. while_next f ctx body s ex) m
  Drains-meet body s ex (ok s') (c, h) = ((s', c), h, refl)
  Drains-meet body s ex (stop x) h = h

  collects :
      (fl : Flow) (ex : Executor)
      → Yields ctx ex fl
      → Meets Holds (λ f. while_next f ctx push [] ex) (collect fl)
  collects fl ex y =
      subst (Meets Holds (λ f. while_next f ctx push [] ex))
        (push_collects ctx fl [] ∙ same (collect fl))
        (Drains-meet push [] ex (fold_flow push [] fl) (flow-Drains ctx push fl [] ex y))
    where
      same : (o : Outcome (List Tuple)) → (o >>= λ ts. ok ([] ++ ts)) ≡ o
      same (ok ts) = refl
      same (stop x) = refl

  -- An operator that only wraps its child.
  wrapped :
      (child : Executor) (g : Executor → Executor) (k : Flow → Flow)
      → ((fl : Flow) (c : Executor) → Yields ctx c fl → Yields ctx (g c) (k fl))
      → Opens child (meaning ctx child)
      → Meets
          (Yields ctx)
          (λ f. init f ctx child >>= λ c. ok (g c))
          (meaning ctx child >>= λ fl. ok (k fl))
  wrapped child g k y =
      Meets-bind (Yields ctx) (Yields ctx) (λ f. init f ctx child) (λ f c. ok (g c))
        (λ fl. ok (k fl)) (λ c fl h. (g c, at_once (ok (g c)), y fl c h)) (meaning ctx child)

  module _ (right : Executor) (cond : Option Expr) (s : Schema) (rows : List Tuple) where
    abbrev opened : Pull → Outcome Executor
    opened (row, left) = ok (nested_loop_join left right cond s rows row 0)

    -- The first row of a join's left child.
    first-Meets :
        (fl : Flow) (left : Executor)
        → Yields ctx left fl
        → Meets
            (Yields ctx)
            (λ f. next f ctx left >>= opened)
            (first_row fl (join_flow cond s rows fl))
    first-Meets end left (c, h) = (
      nested_loop_join c right cond s rows none 0,
      record { fuel = h.fuel; at = λ f le. ap (λ o. o >>= opened) (h.at f le) },
      join_done-Yields ctx right cond s rows c 0,
    )
    first-Meets (stuck x) left h = record {
      fuel = h.fuel;
      at = λ f le. ap (λ o. o >>= opened) (h.at f le);
    }
    first-Meets (emit t fl) left (c, h, y) = (
      nested_loop_join c right cond s rows (some t) 0,
      record { fuel = h.fuel; at = λ f le. ap (λ o. o >>= opened) (h.at f le) },
      join-Yields ctx right cond s rows fl c t y,
    )

  pub init-Opens : (ex : Executor) → Opens ex (meaning ctx ex)
  unfolding init meaning
  init-Opens (dummy_scan done) =
      (dummy_scan false, at_once (ok (dummy_scan false)), dummy-Yields ctx)
  init-Opens (seq_scan name cursor) = elim (Option-cases (HashMap.get ctx.tables name)) [
    | inl e ↦
        rw (e, meaning) (seq_scan name 0, at_once (ok (seq_scan name 0)), missing-Yields ctx name e)
    | inr (rows, e) ↦
        rw (e, meaning)
          (seq_scan name 0, at_once (ok (seq_scan name 0)), scan-Yields ctx name rows e)
  ]
  init-Opens (filter child pred s) =
      wrapped child (λ c. filter c pred s) (filter_flow pred s) (filter-Yields ctx pred s)
        (init-Opens child)
  init-Opens (project child es s) =
      wrapped child (λ c. project c es s) (project_flow es s) (project-Yields ctx es s)
        (init-Opens child)
  init-Opens (limit child l o cursor) =
      wrapped child (λ c. limit c l o 0) (limit_flow l (unwrap_or o 0)) (limit-Yields ctx o l)
        (init-Opens child)
  init-Opens (sort child order_by s rows cursor) =
      Meets-bind (Yields ctx) (Yields ctx) (λ f. init f ctx child)
        (λ f c.
          while_next f ctx push [] c >>= λ r. sort_by (compare_rows order_by s) r.0 >>= sorted r.1)
        (λ fl. collect fl >>= λ ts. sort_by (compare_rows order_by s) ts >>= flow)
        (λ c fl y.
          Meets-bind Holds (Yields ctx) (λ f. while_next f ctx push [] c)
            (λ f r. sort_by (compare_rows order_by s) r.0 >>= sorted r.1)
            (λ ts. sort_by (compare_rows order_by s) ts >>= flow)
            (λ r ts e. rw (← e) (finished r.1 (sort_by (compare_rows order_by s) r.0))) (collect fl)
            (collects fl c y))
        (meaning ctx child) (init-Opens child)
    where
      sorted : Executor → List Tuple → Outcome Executor
      sorted c ts = ok (sort c order_by s ts 0)

      flow : List Tuple → Outcome Flow
      flow ts = ok (flow_of ts)

      finished :
          (c : Executor) (o : Outcome (List Tuple))
          → Meets (Yields ctx) (λ f. o >>= sorted c) (o >>= flow)
      finished c (ok ts) =
          (sort c order_by s ts 0, at_once (sorted c ts), sort-Yields ctx c order_by s ts)
      finished c (stop x) = at_once (stop x)
  init-Opens (nested_loop_join left right cond s rows l cursor) =
      Meets-bind (Yields ctx) (Yields ctx) (λ f. init f ctx left)
        (λ f c. init f ctx right >>= λ d.
          while_next f ctx push [] d >>= λ r. next f ctx c >>= opened r.1 cond s r.0)
        (λ lf.
          meaning ctx right >>= λ rf. collect rf >>= λ ts. first_row lf (join_flow cond s ts lf))
        (λ c lf yl.
          Meets-bind (Yields ctx) (Yields ctx) (λ f. init f ctx right)
            (λ f d. while_next f ctx push [] d >>= λ r. next f ctx c >>= opened r.1 cond s r.0)
            (λ rf. collect rf >>= λ ts. first_row lf (join_flow cond s ts lf))
            (λ d rf yr.
              Meets-bind Holds (Yields ctx) (λ f. while_next f ctx push [] d)
                (λ f r. next f ctx c >>= opened r.1 cond s r.0)
                (λ ts. first_row lf (join_flow cond s ts lf))
                (λ r ts e. rw (← e) (first-Meets r.1 cond s r.0 lf c yl)) (collect rf)
                (collects rf d yr))
            (meaning ctx right) (init-Opens right))
        (meaning ctx left) (init-Opens left)
  init-Opens (hash_agg child group_by funcs s g ks cursor) =
      Meets-bind (Yields ctx) (Yields ctx) (λ f. init f ctx child)
        (λ f c. while_next f ctx (agg_row group_by funcs s) no_groups c >>= λ r.
          agg_finish group_by funcs r.0 >>= grouped r.1)
        (λ fl. fold_flow (agg_row group_by funcs s) no_groups fl >>= λ g'.
          agg_finish group_by funcs g' >>= flow)
        (λ c fl y.
          Meets-bind Holds (Yields ctx)
            (λ f. while_next f ctx (agg_row group_by funcs s) no_groups c)
            (λ f r. agg_finish group_by funcs r.0 >>= grouped r.1)
            (λ g'. agg_finish group_by funcs g' >>= flow)
            (λ r g' e. rw (← e) (finished r.1 (agg_finish group_by funcs r.0)))
            (fold_flow (agg_row group_by funcs s) no_groups fl)
            (Drains-meet (agg_row group_by funcs s) no_groups c _
              (flow-Drains ctx (agg_row group_by funcs s) fl no_groups c y)))
        (meaning ctx child) (init-Opens child)
    where
      grouped : Executor → Groups → Outcome Executor
      grouped c g' = ok (hash_agg c group_by funcs s g' (p.hash_order (keys g'.groups)) 0)

      flow : Groups → Outcome Flow
      flow g' = ok (group_flow g' (p.hash_order (keys g'.groups)))

      finished :
          (c : Executor) (o : Outcome Groups)
          → Meets (Yields ctx) (λ f. o >>= grouped c) (o >>= flow)
      finished c (ok g') = (
        hash_agg c group_by funcs s g' (p.hash_order (keys g'.groups)) 0,
        at_once (grouped c g'),
        agg-Yields ctx c group_by funcs s g' (p.hash_order (keys g'.groups)),
      )
      finished c (stop x) = at_once (stop x)

  -- `init`, and then rows until `next` answers `None`: what the handler does with a plan.
  unfoldable pub run : ℕ → Executor → Outcome (List Tuple)
  run fuel ex = do ex' ← init fuel ctx ex; (rows, rest) ← while_next fuel ctx push [] ex'; ok rows

  abbrev pub result : Outcome Flow → Outcome (List Tuple)
  result m = m >>= collect

  -- Whatever state an operator tree is in, from some amount of fuel on `init` and the calls of
  -- `next` give just the rows of its meaning, or fail as its meaning does.
  pub run-eq-meaning : (ex : Executor) → Settles (λ f. run f ex) (result (meaning ctx ex))
  unfolding run
  run-eq-meaning ex =
      Meets-Settles (λ f. run f ex) (result (meaning ctx ex))
        (Meets-bind (Yields ctx) Same (λ f. init f ctx ex)
          (λ f c. while_next f ctx push [] c >>= λ r. ok r.0) collect
          (λ c fl y. drained c (collect fl) (collects fl c y)) (meaning ctx ex) (init-Opens ex))
    where
      drained :
          (c : Executor) (o : Outcome (List Tuple))
          → Meets Holds (λ f. while_next f ctx push [] c) o
          → Meets Same (λ f. while_next f ctx push [] c >>= λ r. ok r.0) o
      drained c (ok ts) (r, h, e) =
          (r.0, record { fuel = h.fuel; at = λ f le. ap (λ o. o >>= λ r. ok r.0) (h.at f le) }, e)
      drained c (stop x) h = record {
        fuel = h.fuel;
        at = λ f le. ap (λ o. o >>= λ r. ok r.0) (h.at f le);
      }
