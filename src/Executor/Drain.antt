-- ===== src/Executor/Drain.antt =====
-- The loops `while let Some(tuple) = child.next()?`: over a child that yields a flow they fold the flow.
use volcano_db.Base.{
  ℕ, zero, suc, ◌≤◌, max, ◌≡◌, refl, ◌∙◌, ap, sym, none, some, List, [], ◌∷◌, ◌++◌, arith,
  string_eq,
}
use mathlib.Core.List.{append_assoc, append-nil}
use volcano_db.Platform.{Platform}
use volcano_db.Outcome.{Outcome, ok, stop, ◌>>=◌}
use volcano_db.Storage.{Tuple}
use volcano_db.Executor.Defs.{ExecutionContext, Executor, Pull, next, while_next, while_round, push}
use volcano_db.Executor.Flow.{Flow, end, stuck, emit, collect, fold_flow}
use volcano_db.Executor.Yields.{Settles, Yields}

module _ ⦃p : Platform⦄ (ctx : ExecutionContext) where
  -- What a `while let Some(tuple) = child.next()?` loop comes to.
  abbrev pub Drains : {S : Type 0} → (S → Tuple → Outcome S) → S → Executor → Outcome S → Type 0
  Drains body s ex (ok s') =
      (ex' : Executor) × Settles (λ f. while_next f ctx body s ex) (ok (s', ex'))
  Drains body s ex (stop x) = Settles (λ f. while_next f ctx body s ex) (stop x)

  module _ {S : Type 0} (body : S → Tuple → Outcome S) where
    while_suc :
        {r : Outcome (S × Executor)} (s : S) (ex : Executor) (q : Outcome Pull) (n : ℕ)
        → Settles (λ f. next f ctx ex) q
        → ((f : ℕ) → n ≤ f → (q >>= while_round (while_next f ctx body) body s) ≡ r)
        → Settles (λ f. while_next f ctx body s ex) r
    while_suc {r} s ex q n h step = record { fuel = suc (max n h.fuel); at = at_fuel }
      where
        at_fuel : (f : ℕ) → suc (max n h.fuel) ≤ f → while_next f ctx body s ex ≡ r
        at_fuel zero le = absurd (omega arith)
        at_fuel (suc f) le =
            unfold while_next in
            (ap (λ o. o >>= while_round (while_next f ctx body) body s) (h.at f (omega arith))
              ∙ step f (omega arith))

    drain_row :
        (s : S) (ex ex' : Executor) (t : Tuple) (fl : Flow)
        → Settles (λ f. next f ctx ex) (ok (some t, ex'))
        → ((s' : S) → Drains body s' ex' (fold_flow body s' fl))
        → (o : Outcome S) → body s t ≡ o
        → Drains body s ex (o >>= λ s'. fold_flow body s' fl)
    unfolding while_round
    drain_row s ex ex' t fl h later (stop x) e =
        while_suc s ex (ok (some t, ex')) 0 h
          (λ f _. ap (λ o. o >>= λ s'. while_next f ctx body s' ex') e)
    drain_row s ex ex' t fl h later (ok s') e = settled (fold_flow body s' fl) (later s')
      where
        step :
            (f : ℕ)
            → (body s t >>= λ s'. while_next f ctx body s' ex') ≡ while_next f ctx body s' ex'
        step f = ap (λ o. o >>= λ s'. while_next f ctx body s' ex') e

        settled : (r : Outcome S) → Drains body s' ex' r → Drains body s ex r
        settled (ok r) (c, d) =
            (c, while_suc s ex (ok (some t, ex')) d.fuel h (λ f le. step f ∙ d.at f le))
        settled (stop x) d = while_suc s ex (ok (some t, ex')) d.fuel h (λ f le. step f ∙ d.at f le)

    pub flow-Drains :
        (fl : Flow) (s : S) (ex : Executor)
        → Yields ctx ex fl
        → Drains body s ex (fold_flow body s fl)
    unfolding while_round
    flow-Drains end s ex (c, h) = (c, while_suc s ex (ok (none, c)) 0 h (λ f _. refl))
    flow-Drains (stuck x) s ex h = while_suc s ex (stop x) 0 h (λ f _. refl)
    flow-Drains (emit t fl) s ex (c, h, rest) =
        drain_row s ex c t fl h (λ s'. flow-Drains fl s' c rest) (body s t) refl

  -- Pushing the rows one by one collects them.
  pub push_collects :
      (fl : Flow) (acc : List Tuple) → fold_flow push acc fl ≡ (collect fl >>= λ ts. ok (acc ++ ts))
  push_collects end acc = ap ok (sym (append-nil acc))
  push_collects (stuck x) acc = refl
  push_collects (emit t fl) acc = push_collects fl (acc ++ (t ∷ [])) ∙ regroup (collect fl)
    where
      regroup :
          (o : Outcome (List Tuple))
          → (o >>= λ ts. ok ((acc ++ (t ∷ [])) ++ ts))
            ≡ (o >>= (λ ts. ok (t ∷ ts)) >>= λ ts. ok (acc ++ ts))
      regroup (ok ts) = ap ok (append_assoc acc (t ∷ []) ts)
      regroup (stop x) = refl
