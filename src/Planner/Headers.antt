-- ===== src/Planner/Headers.antt =====
-- The headers of a query that `bind_query` of src/planner.rs binds.
use mathlib.Core.Path.{subst}
use volcano_db.Base.{
  ℕ, ◌≡◌, ap, sym, ◌∙◌, Option, none, some, String, List, [], ◌∷◌, ◌++◌, ◌||◌, not, map, is_empty,
  Bool-cases, inl, inr, refl,
}
use volcano_db.Platform.{Platform}
use volcano_db.Outcome.{ok, stop, bind_ok, ok-injective}
use volcano_db.Catalog.{Column, Schema, Catalog}
use volcano_db.Planner.Expr.{Expr, col_ref, get_expr_type, get_expr_name}
use volcano_db.Planner.Plan.{LogicalPlan, schema, project_columns}
use volcano_db.Planner.Ast.{SelectItem, OrderByExpr, Select, SetExpr, Query}
use volcano_db.Planner.BindExpr.{map_sql_expr, extract_all}
use volcano_db.Planner.BindQuery.{
  bind_from, bind_where, bind_item, bind_targets, bind_projection, bind_order_by, bind_order,
  bind_limit, bind_body, bind_count, bind_select, bind_query, bind_group_by, any_aggregate,
}
use volcano_db.Planner.Aggregates.{Targets, aliases, aliases-extract_all}

module _ ⦃p : Platform⦄ where
  abbrev pub headers : Schema → List String
  headers s = map (λ (c : Column). c.name) s.columns

  headers-project_columns :
      (ts : Targets) (s : Schema) (cs : List Column)
      → project_columns ts s ≡ ok cs
      → map (λ (c : Column). c.name) cs ≡ aliases ts
  unfolding project_columns
  headers-project_columns [] s cs e = ap (map (λ (c : Column). c.name)) (sym (ok-injective e))
  headers-project_columns ((x, alias) ∷ rest) s cs e =
      let (t, _, f) = bind_ok (get_expr_type x s) _ e in
      let (ds, hd, g) = bind_ok (project_columns rest s) _ f in
      ap (map (λ (c : Column). c.name)) (sym (ok-injective g))
      ∙ ap (◌∷◌ alias) (headers-project_columns rest s ds hd)

  -- The names under which the items of a target list are to show, in a query over this schema.
  abbrev pub item_names : Schema → SelectItem → List String
  item_names s (SelectItem.unnamed_item e) = elim (map_sql_expr e) [
    | ok x ↦ get_expr_name x ∷ []
    | stop _ ↦ []
  ]
  item_names s (SelectItem.expr_with_alias e alias) = alias ∷ []
  item_names s SelectItem.wildcard = headers s
  item_names s (SelectItem.other_item i) = []

  abbrev pub shown_names : Schema → List SelectItem → List String
  shown_names s [] = []
  shown_names s (item ∷ rest) = item_names s item ++ shown_names s rest

  aliases-append : (ts us : Targets) → aliases (ts ++ us) ≡ aliases ts ++ aliases us
  aliases-append [] us = refl
  aliases-append (t ∷ ts) us = ap (◌∷◌ t.1) (aliases-append ts us)

  aliases-columns :
      (cs : List Column)
      → aliases (map (λ (c : Column). (col_ref c.name, c.name)) cs)
        ≡ map (λ (c : Column). c.name) cs
  aliases-columns [] = refl
  aliases-columns (c ∷ cs) = ap (◌∷◌ c.name) (aliases-columns cs)

  aliases-bind_item :
      (s : Schema) (item : SelectItem) (ts : Targets)
      → bind_item s item ≡ ok ts
      → aliases ts ≡ item_names s item
  unfolding bind_item
  aliases-bind_item s (SelectItem.unnamed_item e) ts h =
      let (x, hx, f) = bind_ok (map_sql_expr e) _ h in
      ap aliases (sym (ok-injective f))
      ∙ sym
          (ap (λ o. elim o as (λ _. List String) [ ok x ↦ get_expr_name x ∷ [] | stop _ ↦ [] ]) hx)
  aliases-bind_item s (SelectItem.expr_with_alias e alias) ts h =
      let (x, hx, f) = bind_ok (map_sql_expr e) _ h in ap aliases (sym (ok-injective f))
  aliases-bind_item s SelectItem.wildcard ts h =
      ap aliases (sym (ok-injective h)) ∙ aliases-columns s.columns
  aliases-bind_item s (SelectItem.other_item i) ts h = cc

  aliases-bind_targets :
      (s : Schema) (items : List SelectItem) (ts : Targets)
      → bind_targets s items ≡ ok ts
      → aliases ts ≡ shown_names s items
  unfolding bind_targets
  aliases-bind_targets s [] ts h = ap aliases (sym (ok-injective h))
  aliases-bind_targets s (item ∷ rest) ts h =
      let (xs, hx, f) = bind_ok (bind_item s item) _ h in
      let (ys, hy, g) = bind_ok (bind_targets s rest) _ f in
      ap aliases (sym (ok-injective g))
      ∙ aliases-append xs ys
      ∙ ap (λ ns. ns ++ aliases ys) (aliases-bind_item s item xs hx)
      ∙ ap (◌++◌ (item_names s item)) (aliases-bind_targets s rest ys hy)

  module _ (c : Catalog) where
    -- The headers of the plan, wherever it has a schema.
    abbrev Shows : List String → LogicalPlan → Type 0
    Shows names plan = (s : Schema) → schema plan c ≡ ok s → headers s ≡ names

    Shows-project :
        (child : LogicalPlan) (ts : Targets) → Shows (aliases ts) (LogicalPlan.project child ts)
    unfolding schema
    Shows-project child ts s e =
        let (cs, _, f) = bind_ok (schema child c) _ e in
        let (ds, hd, g) = bind_ok (project_columns ts cs) _ f in
        ap headers (sym (ok-injective g)) ∙ headers-project_columns ts cs ds hd

    Shows-bind_projection :
        (plan : LogicalPlan) (group_by : List Expr) (ts : Targets)
        → Shows (aliases ts) (bind_projection plan group_by ts)
    unfolding bind_projection
    Shows-bind_projection plan group_by ts =
        elim (Bool-cases (not (is_empty group_by) || any_aggregate ts)) [
          | inl e ↦ rw e (
              subst
                (λ names. Shows names (
                  LogicalPlan.project (LogicalPlan.agg plan group_by (extract_all ts []).1)
                    (extract_all ts []).0))
                (aliases-extract_all ts [])
                (Shows-project (LogicalPlan.agg plan group_by (extract_all ts []).1)
                  (extract_all ts []).0))
          | inr e ↦ rw e (Shows-project plan ts)
        ]

    Shows-bind_order_by :
        (names : List String) (o : Option (List OrderByExpr)) (old plan : LogicalPlan)
        → Shows names old
        → bind_order_by o old ≡ ok plan
        → Shows names plan
    unfolding bind_order_by schema
    Shows-bind_order_by names none old plan h e = subst (Shows names) (ok-injective e) h
    Shows-bind_order_by names (some []) old plan h e = subst (Shows names) (ok-injective e) h
    Shows-bind_order_by names (some (o ∷ os)) old plan h e =
        let (es, _, f) = bind_ok (bind_order (o ∷ os)) _ e in subst (Shows names) (ok-injective f) h

    Shows-bind_limit :
        (names : List String) (l o : Option ℕ) (plan : LogicalPlan)
        → Shows names plan
        → Shows names (bind_limit l o plan)
    unfolding schema
    Shows-bind_limit names none none plan h = h
    Shows-bind_limit names none (some o) plan h = h
    Shows-bind_limit names (some l) o plan h = h

    -- A SELECT that binds and has a schema shows under the names of its items, in their order: the
    -- alias of an item that has one, else the text of its expression, and for a star the names of
    -- the columns of FROM; with an aggregation, an ORDER BY and a LIMIT or without.
    pub bind_query-headers :
        (q : Query) (sel : Select) (from plan : LogicalPlan) (before s : Schema)
        → q.body ≡ SetExpr.select sel
        → bind_from sel.from ≡ ok from
        → schema from c ≡ ok before
        → bind_query q c ≡ ok plan
        → schema plan c ≡ ok s
        → headers s ≡ shown_names before sel.projection
    unfolding bind_query bind_select
    bind_query-headers q sel from plan before s body hf hb e k =
        let (selected, hs, e₁) = bind_ok (bind_body q.body c) _ e in
        let (ordered, ho, e₂) = bind_ok (bind_order_by q.order_by selected) _ e₁ in
        let (l, _, e₃) = bind_ok (bind_count q.limit) _ e₂ in
        let (o, _, e₄) = bind_ok (bind_count q.offset) _ e₃ in
        let (kept, hk, e₅) = bind_ok (bind_where sel.selection from) _ (rw (body, hf, hb) at hs) in
        let (ts, ht, e₇) = bind_ok (bind_targets before sel.projection) _ e₅ in
        let (group_by, _, e₆) = bind_ok (bind_group_by sel.group_by) _ e₇ in
        subst (Shows (aliases ts)) (ok-injective e₄)
          (Shows-bind_limit (aliases ts) l o ordered (
            Shows-bind_order_by (aliases ts) q.order_by selected ordered
              (subst (Shows (aliases ts)) (ok-injective e₆)
                (Shows-bind_projection kept group_by ts))
              ho))
          s k
        ∙ aliases-bind_targets before sel.projection ts ht
