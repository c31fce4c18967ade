-- ===== src/Planner/Bound.antt =====
-- What `bind_query` of src/planner.rs makes: aggregates with known functions only, and the headers
-- of the target list.
use mathlib.Core.Path.{subst}
use volcano_db.Base.{
  ℕ, ◌≡◌, refl, true, Option, none, some, String, List, [], ◌∷◌, ◌||◌, ◌==◌, string_eq, not, map,
  All-append, is_empty, Bool-cases, inl, inr,
}
use volcano_db.Platform.{Platform}
use volcano_db.Outcome.{ok, bind_ok, ok-injective}
use volcano_db.Catalog.{Column, Schema, Catalog}
use volcano_db.Planner.Expr.{Expr, col_ref}
use volcano_db.Planner.Plan.{AggFunc, LogicalPlan, schema}
use volcano_db.Base.Int.{pos}
use volcano_db.Storage.{null}
use volcano_db.Executor.Agg.{AggState, count, sum, avg, minimum, maximum, new_state, new_states}
use volcano_db.Planner.Ast.{
  TableFactor, SqlExpr, Join, TableWithJoins, SelectItem, OrderByExpr, Select, SetExpr, Query,
}
use volcano_db.Planner.BindExpr.{
  is_aggregate, map_sql_expr, map_arguments, bind_value, bind_operator, bind_table_factor,
  extract_all,
}
use volcano_db.Planner.BindQuery.{
  bind_condition, bind_joins, bind_from, bind_where, bind_item, bind_targets, bind_projection,
  bind_order_by, bind_order, bind_limit, bind_body, bind_count, bind_select, bind_query,
  bind_group_by, any_aggregate,
}
use volcano_db.Planner.Aggregates.{IsBound, AllKnown, Targets, AllTargets, extract_all_lem}

module _ ⦃p : Platform⦄ where
  -- What the binder makes of an expression calls aggregates only.
  pub map_sql_expr-IsBound : (e : SqlExpr) (x : Expr) → map_sql_expr e ≡ ok x → IsBound x
  unfolding map_sql_expr
  map_sql_expr-IsBound (SqlExpr.identifier name) x e = subst IsBound (ok-injective e) tt
  map_sql_expr-IsBound (SqlExpr.compound_identifier names) x e = subst IsBound (ok-injective e) tt
  map_sql_expr-IsBound (SqlExpr.value v) x e =
      let (c, _, f) = bind_ok (bind_value v) _ e in subst IsBound (ok-injective f) tt
  map_sql_expr-IsBound (SqlExpr.binary op left right) x e =
      let (s, _, f) = bind_ok (bind_operator op) _ e in
      let (l, hl, g) = bind_ok (map_sql_expr left) _ f in
      let (r, hr, h) = bind_ok (map_sql_expr right) _ g in
      subst IsBound (ok-injective h)
        (map_sql_expr-IsBound left l hl, map_sql_expr-IsBound right r hr)
  map_sql_expr-IsBound (SqlExpr.function name args) x e =
      elim (Bool-cases (is_aggregate (p.to_lowercase name))) [
        | inl h ↦
            let (a, _, f) = bind_ok (map_arguments args) _ (rw h at e) in
            subst IsBound (ok-injective f) h
        | inr h ↦ let impossible = rw h at e in cc
      ]
  map_sql_expr-IsBound (SqlExpr.other_expr t) x e = cc

  -- The states of every aggregation in a plan can be made.
  abbrev pub HasStates : LogicalPlan → Type 0
  HasStates LogicalPlan.dummy_scan = Unit
  HasStates (LogicalPlan.scan name alias) = Unit
  HasStates (LogicalPlan.filter child e) = HasStates child
  HasStates (LogicalPlan.project child es) = HasStates child
  HasStates (LogicalPlan.limit child l o) = HasStates child
  HasStates (LogicalPlan.sort child es) = HasStates child
  HasStates (LogicalPlan.join l r c) = HasStates l × HasStates r
  HasStates (LogicalPlan.agg child group_by fs) =
      ((sts : List AggState) × (new_states fs ≡ ok sts)) × HasStates child

  new_state-known :
      (name : String) → is_aggregate name ≡ true → (st : AggState) × (new_state name ≡ ok st)
  unfolding new_state
  new_state-known name h = elim (Bool-cases (name == "count")) [
    | inl a ↦ rw a (count (pos 0), refl)
    | inr na ↦ elim (Bool-cases (name == "sum")) [
      | inl b ↦ rw (na, b) (sum null, refl)
      | inr nb ↦ elim (Bool-cases (name == "avg")) [
        | inl c ↦ rw (na, nb, c) (avg null (pos 0), refl)
        | inr nc ↦ elim (Bool-cases (name == "min")) [
          | inl d ↦ rw (na, nb, nc, d) (minimum null, refl)
          | inr nd ↦ rw (na, nb, nc, nd, rw (na, nb, nc, nd) at h) (maximum null, refl)
        ]
      ]
    ]
  ]

  new_states-known :
      (fs : List AggFunc) → AllKnown fs → (sts : List AggState) × (new_states fs ≡ ok sts)
  unfolding new_states
  new_states-known [] h = ([], refl)
  new_states-known ((name, arg, alias) ∷ fs) (h, hs) =
      let (st, e) = new_state-known name h in
      let (sts, es) = new_states-known fs hs in (st ∷ sts, rw (e, es) refl)

  bind_table_factor-HasStates :
      (t : TableFactor) (plan : LogicalPlan) → bind_table_factor t ≡ ok plan → HasStates plan
  unfolding bind_table_factor
  bind_table_factor-HasStates (TableFactor.table name alias) plan e =
      subst HasStates (ok-injective e) tt
  bind_table_factor-HasStates (TableFactor.other_factor t) plan e = cc

  bind_joins-HasStates :
      (joins : List Join) (curr plan : LogicalPlan)
      → HasStates curr
      → bind_joins curr joins ≡ ok plan
      → HasStates plan
  unfolding bind_joins
  bind_joins-HasStates [] curr plan h e = subst HasStates (ok-injective e) h
  bind_joins-HasStates (j ∷ rest) curr plan h e =
      let (right, hr, f) = bind_ok (bind_table_factor j.relation) _ e in
      let (cond, _, g) = bind_ok (bind_condition j.join_operator) _ f in
      bind_joins-HasStates rest (LogicalPlan.join curr right cond) plan
        (h, bind_table_factor-HasStates j.relation right hr) g

  bind_from-HasStates :
      (from : List TableWithJoins) (plan : LogicalPlan) → bind_from from ≡ ok plan → HasStates plan
  unfolding bind_from
  bind_from-HasStates [] plan e = subst HasStates (ok-injective e) tt
  bind_from-HasStates (t ∷ rest) plan e =
      let (first, hf, f) = bind_ok (bind_table_factor t.relation) _ e in
      bind_joins-HasStates t.joins first plan (bind_table_factor-HasStates t.relation first hf) f

  bind_where-HasStates :
      (w : Option SqlExpr) (old plan : LogicalPlan)
      → HasStates old
      → bind_where w old ≡ ok plan
      → HasStates plan
  unfolding bind_where
  bind_where-HasStates none old plan h e = subst HasStates (ok-injective e) h
  bind_where-HasStates (some w) old plan h e =
      let (pred, _, f) = bind_ok (map_sql_expr w) _ e in subst HasStates (ok-injective f) h

  bind_item-IsBound :
      (s : Schema) (item : SelectItem) (ts : Targets)
      → bind_item s item ≡ ok ts
      → AllTargets IsBound ts
  unfolding bind_item
  bind_item-IsBound s (SelectItem.unnamed_item e) ts h =
      let (x, hx, f) = bind_ok (map_sql_expr e) _ h in
      subst (AllTargets IsBound) (ok-injective f) (map_sql_expr-IsBound e x hx, tt)
  bind_item-IsBound s (SelectItem.expr_with_alias e a) ts h =
      let (x, hx, f) = bind_ok (map_sql_expr e) _ h in
      subst (AllTargets IsBound) (ok-injective f) (map_sql_expr-IsBound e x hx, tt)
  bind_item-IsBound s SelectItem.wildcard ts h =
      subst (AllTargets IsBound) (ok-injective h) (columns s.columns)
    where
      columns :
          (cs : List Column)
          → AllTargets IsBound (map (λ (c : Column). (col_ref c.name, c.name)) cs)
      columns [] = tt
      columns (c ∷ cs) = (tt, columns cs)
  bind_item-IsBound s (SelectItem.other_item i) ts h = cc

  bind_targets-IsBound :
      (s : Schema) (items : List SelectItem) (ts : Targets)
      → bind_targets s items ≡ ok ts
      → AllTargets IsBound ts
  unfolding bind_targets
  bind_targets-IsBound s [] ts h = subst (AllTargets IsBound) (ok-injective h) tt
  bind_targets-IsBound s (item ∷ rest) ts h =
      let (xs, hx, f) = bind_ok (bind_item s item) _ h in
      let (ys, hy, g) = bind_ok (bind_targets s rest) _ f in
      subst (AllTargets IsBound) (ok-injective g) (
        All-append (λ (x : Expr × String). IsBound x.0) xs ys (bind_item-IsBound s item xs hx)
          (bind_targets-IsBound s rest ys hy))

  bind_projection-HasStates :
      (plan : LogicalPlan) (group_by : List Expr) (ts : Targets)
      → HasStates plan
      → AllTargets IsBound ts
      → HasStates (bind_projection plan group_by ts)
  unfolding bind_projection
  bind_projection-HasStates plan group_by ts h bound =
      elim (Bool-cases (not (is_empty group_by) || any_aggregate ts)) [
        | inl e ↦ rw e (new_states-known (extract_all ts []).1 (extract_all_lem ts bound).4, h)
        | inr e ↦ rw e h
      ]

  bind_select-HasStates :
      (sel : Select) (c : Catalog) (plan : LogicalPlan)
      → bind_select sel c ≡ ok plan
      → HasStates plan
  unfolding bind_select
  bind_select-HasStates sel c plan e =
      let (from, hf, e₁) = bind_ok (bind_from sel.from) _ e in
      let (before, _, e₂) = bind_ok (schema from c) _ e₁ in
      let (kept, hk, e₃) = bind_ok (bind_where sel.selection from) _ e₂ in
      let (ts, ht, e₄) = bind_ok (bind_targets before sel.projection) _ e₃ in
      let (group_by, _, e₅) = bind_ok (bind_group_by sel.group_by) _ e₄ in
      subst HasStates (ok-injective e₅) (
        bind_projection-HasStates kept group_by ts
          (bind_where-HasStates sel.selection from kept (bind_from-HasStates sel.from from hf) hk)
          (bind_targets-IsBound before sel.projection ts ht))

  bind_order_by-HasStates :
      (o : Option (List OrderByExpr)) (old plan : LogicalPlan)
      → HasStates old
      → bind_order_by o old ≡ ok plan
      → HasStates plan
  unfolding bind_order_by
  bind_order_by-HasStates none old plan h e = subst HasStates (ok-injective e) h
  bind_order_by-HasStates (some []) old plan h e = subst HasStates (ok-injective e) h
  bind_order_by-HasStates (some (o ∷ os)) old plan h e =
      let (es, _, f) = bind_ok (bind_order (o ∷ os)) _ e in subst HasStates (ok-injective f) h

  bind_limit-HasStates :
      (l o : Option ℕ) (plan : LogicalPlan) → HasStates plan → HasStates (bind_limit l o plan)
  bind_limit-HasStates none none plan h = h
  bind_limit-HasStates none (some o) plan h = h
  bind_limit-HasStates (some l) o plan h = h

  bind_body-HasStates :
      (body : SetExpr) (c : Catalog) (plan : LogicalPlan)
      → bind_body body c ≡ ok plan
      → HasStates plan
  bind_body-HasStates (SetExpr.select sel) c plan e = bind_select-HasStates sel c plan e
  bind_body-HasStates (SetExpr.values rows) c plan e = cc
  bind_body-HasStates (SetExpr.other_body b) c plan e = cc

  -- In the plan of a query that binds, the states of every aggregation can be made: the panic of
  -- `AggState::new` on an unknown function is out of reach.
  pub bind_query-HasStates :
      (q : Query) (c : Catalog) (plan : LogicalPlan) → bind_query q c ≡ ok plan → HasStates plan
  unfolding bind_query
  bind_query-HasStates q c plan e =
      let (selected, hs, e₁) = bind_ok (bind_body q.body c) _ e in
      let (ordered, ho, e₂) = bind_ok (bind_order_by q.order_by selected) _ e₁ in
      let (l, _, e₃) = bind_ok (bind_count q.limit) _ e₂ in
      let (o, _, e₄) = bind_ok (bind_count q.offset) _ e₃ in
      subst HasStates (ok-injective e₄) (
        bind_limit-HasStates l o ordered (
          bind_order_by-HasStates q.order_by selected ordered
            (bind_body-HasStates q.body c selected hs) ho))
