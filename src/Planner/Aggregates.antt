-- ===== src/Planner/Aggregates.antt =====
-- `extract_aggregates` of src/planner.rs: the target list over an aggregation, and the list of the
-- aggregates that it needs.
use volcano_db.Base.{
  ◌≡◌, refl, ap, Bool, true, false, String, List, [], ◌∷◌, ◌++◌, ◌==◌, string_eq, ◌||◌, any, map,
  All, All-append, arith, beq_refl, Bool-cases, inl, inr,
}
use volcano_db.Platform.{Platform}
use volcano_db.Outcome.{Outcome, ◌>>=◌}
use volcano_db.Text.{◌^^◌}
use volcano_db.Catalog.{Schema}
use volcano_db.Storage.{Value, varchar, Tuple}
use volcano_db.Planner.Expr.{
  Expr, col_ref, const, binary_op, func_call, star, eval, eval_binary_op, lookup_column,
  get_expr_name,
}
use volcano_db.Planner.Plan.{AggFunc}
use volcano_db.Planner.BindExpr.{is_aggregate, add_aggregate, extract_aggregates, extract_all}

module _ ⦃p : Platform⦄ where
  -- The name of the column that an aggregate call is computed into.
  abbrev pub call_name : String → Expr → String
  call_name name arg = name ^^ ("(" ^^ (get_expr_name arg ^^ ")"))

  -- Every call in the expression is of an aggregate, as the binder makes them.
  abbrev pub IsBound : Expr → Type 0
  IsBound (func_call name arg) = is_aggregate name ≡ true
  IsBound (binary_op op l r) = IsBound l × IsBound r
  IsBound _ = Unit

  -- The value of an expression when the calls in it have these values.
  abbrev pub eval_calls : (String → Expr → Outcome Value) → Expr → Tuple → Schema → Outcome Value
  eval_calls v (func_call name arg) t s = v name arg
  eval_calls v (binary_op op left right) t s = do
    l ← eval_calls v left t s
    r ← eval_calls v right t s
    eval_binary_op op l r
  eval_calls v e t s = eval e t s

  -- The value of a call, read from the column of its name.
  abbrev pub column_value : Tuple → Schema → String → Expr → Outcome Value
  column_value t s name arg = lookup_column s (call_name name arg) t.values

  abbrev pub lists : List AggFunc → String → Bool
  lists fs name = any (λ f. f.2 == name) fs

  -- The column of every call in the expression is in the list.
  abbrev pub Listed : List AggFunc → Expr → Type 0
  Listed fs (func_call name arg) = lists fs (call_name name arg) ≡ true
  Listed fs (binary_op op l r) = Listed fs l × Listed fs r
  Listed fs _ = Unit

  -- No column twice.
  abbrev pub Distinct : List AggFunc → Type 0
  Distinct [] = Unit
  Distinct (f ∷ fs) = (lists fs f.2 ≡ false) × Distinct fs

  -- Every function in the list is one that has states.
  abbrev pub AllKnown : List AggFunc → Type 0
  AllKnown fs = All (λ (f : AggFunc). is_aggregate f.0 ≡ true) fs

  lists-append :
      (fs gs : List AggFunc) (name : String)
      → lists (fs ++ gs) name ≡ (lists fs name || lists gs name)
  lists-append [] gs name = refl
  lists-append (f ∷ fs) gs name = ground (arith, lists-append fs gs name)

  Distinct-append :
      (fs : List AggFunc) (f : AggFunc)
      → lists fs f.2 ≡ false
      → Distinct fs
      → Distinct (fs ++ (f ∷ []))
  Distinct-append [] f h d = (refl, tt)
  Distinct-append (g ∷ fs) f h (k, d) = (
    ground
        (arith, lists-append fs (f ∷ []) g.2, string_eq.beq_iff f.2 g.2, string_eq.beq_iff g.2 f.2),
    Distinct-append fs f (ground arith) d,
  )

  Listed-append : (fs gs : List AggFunc) (e : Expr) → Listed fs e → Listed (fs ++ gs) e
  Listed-append fs gs (func_call name arg) h =
      ground (arith, lists-append fs gs (call_name name arg))
  Listed-append fs gs (binary_op op l r) (h, k) = (Listed-append fs gs l h, Listed-append fs gs r k)
  Listed-append fs gs (col_ref name) h = tt
  Listed-append fs gs (const v) h = tt
  Listed-append fs gs star h = tt

  -- What the rewriting of an expression does to the list of aggregates.
  pub record Grows (e : Expr) (fs gs : List AggFunc) : Type 0 where
    pub keeps : (d : Expr) → Listed fs d → Listed gs d
    pub listed : Listed gs e
    pub distinct : Distinct fs → Distinct gs
    pub known : AllKnown fs → AllKnown gs

  Grows-refl : (e : Expr) (fs : List AggFunc) → Listed fs e → Grows e fs fs
  Grows-refl e fs h = record { keeps = λ d k. k; listed = h; distinct = λ d. d; known = λ k. k }

  add_aggregate-Grows :
      (name : String) (arg : Expr) (fs : List AggFunc)
      → is_aggregate name ≡ true
      → Grows (func_call name arg) fs (add_aggregate name arg fs).1
  unfolding add_aggregate
  add_aggregate-Grows name arg fs known = elim (Bool-cases (lists fs (call_name name arg))) [
    | inl h ↦ rw h (Grows-refl (func_call name arg) fs h)
    | inr h ↦ rw h (record {
      keeps = λ d k. Listed-append fs (f ∷ []) d k;
      listed =
          ground
            (arith, lists-append fs (f ∷ []) (call_name name arg), beq_refl (call_name name arg));
      distinct = λ d. Distinct-append fs f h d;
      known =
          λ ks. All-append (λ (f : AggFunc). is_aggregate f.0 ≡ true) fs (f ∷ []) ks (known, tt);
    })
  ]
    where
      f : AggFunc
      f = (name, arg, call_name name arg)

  extract_aggregates-Grows :
      (e : Expr) (fs : List AggFunc) → IsBound e → Grows e fs (extract_aggregates e fs).1
  unfolding extract_aggregates
  extract_aggregates-Grows (func_call name arg) fs known =
      rw known (add_aggregate-Grows name arg fs known)
  extract_aggregates-Grows (binary_op op l r) fs (hl, hr) =
      let gl = extract_aggregates-Grows l fs hl in
      let gr = extract_aggregates-Grows r (extract_aggregates l fs).1 hr in
      record {
        keeps = λ d k. gr.keeps d (gl.keeps d k);
        listed = (gr.keeps l gl.listed, gr.listed);
        distinct = λ d. gr.distinct (gl.distinct d);
        known = λ k. gr.known (gl.known k);
      }
  extract_aggregates-Grows (col_ref name) fs h = Grows-refl (col_ref name) fs tt
  extract_aggregates-Grows (const v) fs h = Grows-refl (const v) fs tt
  extract_aggregates-Grows star fs h = Grows-refl star fs tt

  -- Evaluating the rewritten expression over a row of the aggregation is evaluating the old one
  -- with the columns of the row for its calls.
  extract_aggregates-eval :
      (t : Tuple) (s : Schema) (e : Expr) (fs : List AggFunc)
      → IsBound e
      → eval (extract_aggregates e fs).0 t s ≡ eval_calls (column_value t s) e t s
  unfolding extract_aggregates eval
  extract_aggregates-eval t s (func_call name arg) fs known =
      rw known (unfold add_aggregate in refl)
  extract_aggregates-eval t s (binary_op op l r) fs (hl, hr) =
      rw
        (
          extract_aggregates-eval t s l fs hl,
          extract_aggregates-eval t s r (extract_aggregates l fs).1 hr,
        )
        refl
  extract_aggregates-eval t s (col_ref name) fs h = refl
  extract_aggregates-eval t s (const v) fs h = refl
  extract_aggregates-eval t s star fs h = refl

  abbrev pub Targets : Type 0
  Targets = List (Expr × String)

  abbrev pub AllTargets : (Expr → Type 0) → Targets → Type 0
  AllTargets P targets = All (λ (x : Expr × String). P x.0) targets

  abbrev pub aliases : Targets → List String
  aliases targets = map (λ (x : Expr × String). x.1) targets

  extract_all-Grows :
      (targets : Targets) (fs : List AggFunc)
      → AllTargets IsBound targets
      → let gs = (extract_all targets fs).1 in
        ((d : Expr) → Listed fs d → Listed gs d)
        × AllTargets (Listed gs) targets
        × (Distinct fs → Distinct gs)
        × (AllKnown fs → AllKnown gs)
  unfolding extract_all
  extract_all-Grows [] fs h = (λ d k. k, tt, λ d. d, λ k. k)
  extract_all-Grows ((e, alias) ∷ rest) fs (he, hs) =
      let g = extract_aggregates-Grows e fs he in
      let (keeps, listed, distinct, known) =
        extract_all-Grows rest (extract_aggregates e fs).1 hs in
      (
        λ d k. keeps d (g.keeps d k),
        (keeps e g.listed, listed),
        λ d. distinct (g.distinct d),
        λ k. known (g.known k),
      )

  pub aliases-extract_all :
      (targets : Targets) (fs : List AggFunc) → aliases (extract_all targets fs).0 ≡ aliases targets
  unfolding extract_all
  aliases-extract_all [] fs = refl
  aliases-extract_all ((e, alias) ∷ rest) fs =
      ap (◌∷◌ alias) (aliases-extract_all rest (extract_aggregates e fs).1)

  extract_all-eval :
      (t : Tuple) (s : Schema) (targets : Targets) (fs : List AggFunc)
      → AllTargets IsBound targets
      → map (λ (x : Expr × String). eval x.0 t s) (extract_all targets fs).0
        ≡ map (λ (x : Expr × String). eval_calls (column_value t s) x.0 t s) targets
  unfolding extract_all
  extract_all-eval t s [] fs h = refl
  extract_all-eval t s ((e, alias) ∷ rest) fs (he, hs) =
      rw
        (
          extract_aggregates-eval t s e fs he,
          extract_all-eval t s rest (extract_aggregates e fs).1 hs,
        )
        refl

  -- The rewriting of a target list whose calls are of aggregates: the headers are those of before,
  -- the values over a row of the aggregation are those of the old expressions with the columns of
  -- the row for their calls, each call has its column in the list of aggregates, no column is there
  -- twice, and each is of a known function.
  pub extract_all_lem :
      (targets : Targets)
      → AllTargets IsBound targets
      → let (proj, gs) = extract_all targets [] in
        (aliases proj ≡ aliases targets)
        × ((t : Tuple) (s : Schema)
            → map (λ (x : Expr × String). eval x.0 t s) proj
              ≡ map (λ (x : Expr × String). eval_calls (column_value t s) x.0 t s) targets)
        × AllTargets (Listed gs) targets
        × Distinct gs
        × AllKnown gs
  extract_all_lem targets h =
      let (keeps, listed, distinct, known) = extract_all-Grows targets [] h in
      (
        aliases-extract_all targets [],
        λ t s. extract_all-eval t s targets [] h,
        listed,
        distinct tt,
        known tt,
      )

  -- An aggregate of a column and the same aggregate of the text of its name share one column of the
  -- aggregation: of the two calls only the first is computed, and both targets read its column.
  pub extract_all_conflates :
      (name column a b : String)
      → is_aggregate name ≡ true
      → let read = col_ref (call_name name (col_ref column)) in
        extract_all
          ((func_call name (const (varchar column)), a) ∷ (func_call name (col_ref column), b) ∷ [])
          []
        ≡ (
          (read, a) ∷ (read, b) ∷ [],
          (name, const (varchar column), call_name name (col_ref column)) ∷ [],
        )
  unfolding extract_all extract_aggregates add_aggregate get_expr_name
  extract_all_conflates name column a b h = rw (h, beq_refl (call_name name (col_ref column))) refl
