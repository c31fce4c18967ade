-- ===== src/Executor/Sorting.antt =====
-- ORDER BY of src/executor.rs: the rows of the child, rearranged and in order.
use mathlib.Core.List.{Perm}
use mathlib.Core.List.Perm
use mathlib.Core.Path.{subst}
use volcano_db.Base.{ℕ, Bool, ◌≡◌, ◌≢◌, ◌∙◌, refl, ap, List, [], ◌∷◌, All, Ordering}
use volcano_db.Platform.{Platform}
use volcano_db.Outcome.{Outcome, ok, ◌>>=◌}
use volcano_db.Catalog.{Schema}
use volcano_db.Storage.{Tuple}
use volcano_db.Planner.Expr.{Expr}
use volcano_db.Executor.Order.{insert_sorted, sort_by, compare_rows}
use volcano_db.Executor.Defs.{ExecutionContext, Executor, sort}
use volcano_db.Executor.Flow.{flow_of, meaning}
use volcano_db.Executor.Yields.{Settles}
use volcano_db.Executor.Limits.{collect-flow_of}
use volcano_db.Executor.Refinement.{run, run-eq-meaning}

module _ {A : Type 0} (cmp : A → A → Outcome Ordering) where
  -- No row comes after one that is greater.
  abbrev pub InOrder : List A → Type 0
  InOrder [] = Unit
  InOrder (x ∷ xs) = All (λ y. cmp x y ≢ ok Ordering.gt) xs × InOrder xs

  -- The comparison answers on the rows of a kind, and orders them.
  pub record Orders (P : A → Type 0) : Type 0 where
    pub answers : (x y : A) → P x → P y → (o : Ordering) × (cmp x y ≡ ok o)
    pub total : (x y : A) → P x → P y → cmp x y ≡ ok Ordering.gt → cmp y x ≢ ok Ordering.gt
    pub transitive :
        (x y z : A)
        → P x
        → P y
        → P z
        → cmp x y ≢ ok Ordering.gt
        → cmp y z ≢ ok Ordering.gt
        → cmp x z ≢ ok Ordering.gt

  pub insert_step :
      (x y : A) (ys : List A) (o : Ordering)
      → cmp x y ≡ ok o
      → insert_sorted cmp x (y ∷ ys) ≡ elim o as (λ _. Outcome (List A)) [
        | Ordering.gt ↦ insert_sorted cmp x ys >>= λ zs. ok (y ∷ zs)
        | _ ↦ ok (x ∷ y ∷ ys)
      ]
  unfolding insert_sorted
  insert_step x y ys o e =
      ap
        (λ r. r >>= λ o. elim o as (λ _. Outcome (List A)) [
          | Ordering.gt ↦ insert_sorted cmp x ys >>= λ zs. ok (y ∷ zs)
          | _ ↦ ok (x ∷ y ∷ ys)
        ])
        e

  -- The result is a rearrangement of the rows, and in order.
  pub record Sorts (o : Outcome (List A)) (xs : List A) : Type 1 where
    pub rows : List A
    pub ends : o ≡ ok rows
    pub perm : Perm rows xs
    pub keeps : (Q : A → Type 0) → All Q xs → All Q rows
    pub ordered : InOrder rows

  module _ (P : A → Type 0) (v : Orders P) where
    below-All :
        (x y : A) (ys : List A)
        → P x
        → P y
        → All P ys
        → cmp x y ≢ ok Ordering.gt
        → All (λ z. cmp y z ≢ ok Ordering.gt) ys
        → All (λ z. cmp x z ≢ ok Ordering.gt) ys
    below-All x y [] hx hy h le k = tt
    below-All x y (z ∷ ys) hx hy (h, hs) le (k, ks) =
        (v.transitive x y z hx hy h le k, below-All x y ys hx hy hs le ks)

    -- The row goes first.
    here-Sorts :
        (x y : A) (ys : List A)
        → P x
        → P y
        → All P ys
        → cmp x y ≢ ok Ordering.gt
        → InOrder (y ∷ ys)
        → Sorts (ok (x ∷ y ∷ ys)) (x ∷ y ∷ ys)
    here-Sorts x y ys hx hy hs le (k, ks) = record {
      rows = x ∷ y ∷ ys;
      ends = refl;
      perm = Perm.refl (x ∷ y ∷ ys);
      keeps = λ Q q. q;
      ordered = ((le, below-All x y ys hx hy hs le k), (k, ks));
    }

    insert_sorted-Sorts :
        (x : A) (ys : List A)
        → P x
        → All P ys
        → InOrder ys
        → Sorts (insert_sorted cmp x ys) (x ∷ ys)
    unfolding insert_sorted
    insert_sorted-Sorts x [] h hs k = record {
      rows = x ∷ [];
      ends = refl;
      perm = Perm.refl (x ∷ []);
      keeps = λ Q q. q;
      ordered = (tt, tt);
    }
    insert_sorted-Sorts x (y ∷ ys) h (hy, hs) (k, ks) =
        let (o, e) = v.answers x y h hy in go o e (insert_sorted-Sorts x ys h hs ks)
      where
        go :
            (o : Ordering)
            → cmp x y ≡ ok o
            → Sorts (insert_sorted cmp x ys) (x ∷ ys)
            → Sorts (insert_sorted cmp x (y ∷ ys)) (x ∷ y ∷ ys)
        go Ordering.gt e later = record {
          rows = y ∷ later.rows;
          ends = insert_step x y ys Ordering.gt e ∙ ap (λ o. o >>= λ zs. ok (y ∷ zs)) later.ends;
          perm = Perm.trans (Perm.cons y later.perm) (Perm.swap x y ys);
          keeps = λ Q q. (q.1.0, later.keeps Q (q.0, q.1.1));
          ordered =
              (later.keeps (λ z. cmp y z ≢ ok Ordering.gt) (v.total x y h hy e, k), later.ordered);
        }
        go Ordering.lt e later =
            let le : cmp x y ≢ ok Ordering.gt = λ g. cc in
            rw (insert_step x y ys Ordering.lt e) (here-Sorts x y ys h hy hs le (k, ks))
        go Ordering.eq e later =
            let le : cmp x y ≢ ok Ordering.gt = λ g. cc in
            rw (insert_step x y ys Ordering.eq e) (here-Sorts x y ys h hy hs le (k, ks))

    sort_by-Sorts : (xs : List A) → All P xs → Sorts (sort_by cmp xs) xs
    unfolding sort_by
    sort_by-Sorts [] h = record {
      rows = [];
      ends = refl;
      perm = Perm.nil;
      keeps = λ Q q. q;
      ordered = tt;
    }
    sort_by-Sorts (x ∷ xs) (h, hs) =
        let r = sort_by-Sorts xs hs in
        let i = insert_sorted-Sorts x r.rows h (r.keeps P hs) r.ordered in
        record {
          rows = i.rows;
          ends = ap (λ o. o >>= λ ys. insert_sorted cmp x ys) r.ends ∙ i.ends;
          perm = Perm.trans i.perm (Perm.cons x r.perm);
          keeps = λ Q q. i.keeps Q (q.0, r.keeps Q q.1);
          ordered = i.ordered;
        }

module _ ⦃p : Platform⦄ where
  -- Over a child that yields certain rows and then ends, an ORDER BY yields from some amount of fuel
  -- on a rearrangement of these rows in which no row comes after one that is greater, when its
  -- comparison answers, without a panic, on a kind of rows that has them all, and is total and
  -- transitive there.
  pub run-sort :
      (ctx : ExecutionContext) (child : Executor) (ts old : List Tuple) (cursor : ℕ)
      (order_by : List (Expr × Bool)) (s : Schema) (P : Tuple → Type 0)
      → meaning ctx child ≡ ok (flow_of ts)
      → Orders (compare_rows order_by s) P
      → All P ts
      → (rows : List Tuple) × Settles (λ f. run ctx f (sort child order_by s old cursor)) (ok rows)
        × Perm rows ts
        × InOrder (compare_rows order_by s) rows
  unfolding meaning
  run-sort ctx child ts old cursor order_by s P e v h =
      let sorted = sort_by-Sorts (compare_rows order_by s) P v ts h in
      (
        sorted.rows,
        subst (Settles (λ f. run ctx f (sort child order_by s old cursor)))
            (rw (e, collect-flow_of ts, sorted.ends) (collect-flow_of sorted.rows))
            (run-eq-meaning ctx (sort child order_by s old cursor)),
        sorted.perm,
        sorted.ordered,
      )
