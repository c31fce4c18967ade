-- ===== src/Executor/Grouping.antt =====
-- The groups of the hash aggregation of src/executor.rs against the rows of each key.
use volcano_db.Base.{
  ◌≡◌, ◌∙◌, refl, ap, sym, Bool, true, false, String, Option, none, some, List, [], ◌∷◌, ◌++◌, ◌==◌,
  string_eq, filter, filter-append, beq-cases, inl, inr,
}
use mathlib.Core.List.{append_assoc, append-nil}
use mathlib.Core.Path.{subst}
use volcano_db.HashMap
use volcano_db.HashMap.{get-insert}
use volcano_db.Platform.{Platform}
use volcano_db.Outcome.{Outcome, ok, stop, ◌>>=◌, bind_ok, ok-injective}
use volcano_db.Catalog.{Schema}
use volcano_db.Storage.{Value, Tuple}
use volcano_db.Planner.Expr.{Expr}
use volcano_db.Planner.Plan.{AggFunc}
use volcano_db.Executor.Agg.{
  AggState, Groups, no_groups, new_states, eval_all, update_states, make_group_key, entry, agg_row,
}
use volcano_db.Executor.Flow.{flow_of, fold_flow}

module _ ⦃p : Platform⦄ (group_by : List Expr) (funcs : List AggFunc) (s : Schema) where
  abbrev pub make_key : Outcome (List Value) → String → Bool
  make_key (ok vals) k = make_group_key vals == k
  make_key (stop x) k = false

  -- The row's GROUP BY values make this key.
  abbrev pub has_key : String → Tuple → Bool
  has_key k t = make_key (eval_all group_by t s) k

  -- Rows taken into the states one after the other.
  abbrev pub absorb_rows : Outcome (List AggState) → List Tuple → Outcome (List AggState)
  absorb_rows o [] = o
  absorb_rows o (t ∷ ts) = absorb_rows (o >>= λ sts. update_states funcs sts t s) ts

  -- What the hash table has for a key with these rows: nothing without rows, and else the new
  -- states with the rows taken in.
  abbrev pub Holds : Option (List AggState) → List Tuple → Type 0
  Holds none [] = Unit
  Holds none (t ∷ ts) = ⊥
  Holds (some sts) [] = ⊥
  Holds (some sts) (t ∷ ts) = absorb_rows (new_states funcs) (t ∷ ts) ≡ ok sts

  absorb_rows-append :
      (ts : List Tuple) (o : Outcome (List AggState)) (t : Tuple)
      → absorb_rows o (ts ++ (t ∷ [])) ≡ (absorb_rows o ts >>= λ sts. update_states funcs sts t s)
  absorb_rows-append [] o t = refl
  absorb_rows-append (r ∷ ts) o t =
      absorb_rows-append ts (o >>= λ sts. update_states funcs sts r s) t

  -- One more row for a key.
  extend-Holds :
      (m : Option (List AggState)) (rows : List Tuple) (t : Tuple) (sts sts' : List AggState)
      → Holds m rows
      → (elim m as (λ _. Outcome (List AggState)) [ none ↦ new_states funcs | some old ↦ ok old ])
        ≡ ok sts
      → update_states funcs sts t s ≡ ok sts'
      → Holds (some sts') (rows ++ (t ∷ []))
  extend-Holds none [] t sts sts' h e u = rw (e, u) refl
  extend-Holds none (r ∷ rows) t sts sts' h e u = elim h [ ]
  extend-Holds (some old) [] t sts sts' h e u = elim h [ ]
  extend-Holds (some old) (r ∷ rows) t sts sts' h e u =
      absorb_rows-append (r ∷ rows) (new_states funcs) t
      ∙ ap (λ o. o >>= λ x. update_states funcs x t s) (h ∙ e)
      ∙ u

  -- The groups hold the rows so far.
  abbrev pub Covers : Groups → List Tuple → Type 0
  Covers g rows = (k : String) → Holds (HashMap.get g.groups k) (filter (has_key k) rows)

  agg_row-Covers :
      (g g' : Groups) (rows : List Tuple) (t : Tuple)
      → Covers g rows
      → agg_row group_by funcs s g t ≡ ok g'
      → Covers g' (rows ++ (t ∷ []))
  unfolding agg_row
  agg_row-Covers g g' rows t c e k =
      let (vals, hv, e₁) = bind_ok (eval_all group_by t s) _ e in
      let key = make_group_key vals in
      let (sts, hs, e₂) = bind_ok (entry g.groups key funcs) _ e₁ in
      let (sts', hu, e₃) = bind_ok (update_states funcs sts t s) _ e₂ in
      let groups : HashMap.insert g.groups key sts' ≡ g'.groups =
        ap (λ x. x.groups) (ok-injective e₃) in
      let got = ap (λ m. HashMap.get m k) (sym groups) ∙ get-insert g.groups key sts' k in
      let split = filter-append (has_key k) rows (t ∷ []) in
      elim (beq-cases key k) [
        | inl (b, same) ↦
            let mine : has_key k t ≡ true = ap (λ o. make_key o k) hv ∙ b in
            let new : HashMap.get g'.groups k ≡ some sts' = got ∙ rw b refl in
            let one : filter (has_key k) (t ∷ []) ≡ t ∷ [] = rw mine refl in
            rw (new, split, one)
              (extend-Holds (HashMap.get g.groups k) (filter (has_key k) rows) t sts sts' (c k)
                (subst (λ j. entry g.groups j funcs ≡ ok sts) same hs) hu)
        | inr b ↦
            let other : has_key k t ≡ false = ap (λ o. make_key o k) hv ∙ b in
            let old : HashMap.get g'.groups k ≡ HashMap.get g.groups k = got ∙ rw b refl in
            let none_more : filter (has_key k) (t ∷ []) ≡ [] = rw other refl in
            rw (old, split, none_more, append-nil (filter (has_key k) rows)) (c k)
      ]

  fold-Covers :
      (ts : List Tuple) (g g' : Groups) (rows : List Tuple)
      → Covers g rows
      → fold_flow (agg_row group_by funcs s) g (flow_of ts) ≡ ok g'
      → Covers g' (rows ++ ts)
  fold-Covers [] g g' rows c e =
      rw (append-nil rows) (subst (λ x. Covers x rows) (ok-injective e) c)
  fold-Covers (t ∷ ts) g g' rows c e =
      let (h, one, later) = bind_ok (agg_row group_by funcs s g t) _ e in
      rw (← append_assoc rows (t ∷ []) ts)
        (fold-Covers ts h g' (rows ++ (t ∷ [])) (agg_row-Covers g h rows t c one) later)

  -- After the loop of the aggregation over some rows, where it does not fail: for every key the
  -- group table has the states that take in just the rows with the key, in their order, and has
  -- nothing for a key that no row has.
  pub agg_rows_by_key :
      (ts : List Tuple) (g : Groups)
      → fold_flow (agg_row group_by funcs s) no_groups (flow_of ts) ≡ ok g
      → (k : String) → Holds (HashMap.get g.groups k) (filter (has_key k) ts)
  unfolding HashMap.get
  agg_rows_by_key ts g e = fold-Covers ts no_groups g [] (λ k. tt) e
