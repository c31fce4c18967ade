-- ===== src/Executor/Yields.antt =====
-- The relation between an operator's state and a flow: with enough fuel its `next` gives the rows of
-- the flow one after the other, and then ends as the flow does.
use volcano_db.Base.{
  ℕ, zero, suc, ◌≤◌, max, ◌≡◌, ◌∙◌, ap, Bool, true, false, none, some, arith, if◌then◌else◌,
}
use volcano_db.Platform.{Platform}
use volcano_db.Outcome.{Outcome, ok, stop, ◌>>=◌}
use volcano_db.Storage.{Value, Tuple, is_truthy}
use volcano_db.Executor.Defs.{ExecutionContext, Executor, Pull, next, next_step}
use volcano_db.Executor.Flow.{Flow, end, stuck, emit, keep_row}

-- From some amount of fuel on, the result is the same.
pub record Settles {ℓ} {A : Type ℓ} (call : ℕ → A) (result : A) : Type ℓ where
  pub fuel : ℕ
  pub at : (f : ℕ) → fuel ≤ f → call f ≡ result

module _ ⦃p : Platform⦄ (ctx : ExecutionContext) where
  abbrev pub Yields : Executor → Flow → Type 0
  Yields ex end = (ex' : Executor) × Settles (λ f. next f ctx ex) (ok (none, ex'))
  Yields ex (stuck e) = Settles (λ f. next f ctx ex) (stop e)
  Yields ex (emit t fl) =
      (ex' : Executor) × Settles (λ f. next f ctx ex) (ok (some t, ex')) × Yields ex' fl

  -- One call of `next` is one step with less fuel.
  pub Settles-step :
      (ex : Executor) (r : Outcome Pull)
      → Settles (λ f. next_step (next f ctx) ctx ex) r
      → Settles (λ f. next f ctx ex) r
  Settles-step ex r h = record { fuel = suc h.fuel; at = at_fuel }
    where
      at_fuel : (f : ℕ) → suc h.fuel ≤ f → next f ctx ex ≡ r
      at_fuel zero le = absurd (omega arith)
      at_fuel (suc f) le = unfold next in h.at f (omega arith)

  -- A state whose step is a call of `next` on another state yields what that state does.
  module _ (ex other : Executor) (n : ℕ)
      (same : (f : ℕ) → n ≤ f → next_step (next f ctx) ctx ex ≡ next f ctx other) where
    settle : (r : Outcome Pull) → Settles (λ f. next f ctx other) r → Settles (λ f. next f ctx ex) r
    settle r h =
        Settles-step ex r
          (record { fuel = max n h.fuel; at = λ f le. same f (omega arith) ∙ h.at f (omega arith) })

    pub Yields-defer : (fl : Flow) → Yields other fl → Yields ex fl
    Yields-defer end (ex', h) = (ex', settle (ok (none, ex')) h)
    Yields-defer (stuck e) h = settle (stop e) h
    Yields-defer (emit t fl) (ex', h, rest) = (ex', settle (ok (some t, ex')) h, rest)

  -- A state whose step is a call of `next` on a child, with something done to the answer.
  pub Settles-bind :
      (ex child : Executor) (k : ℕ → Pull → Outcome Pull) {q : Outcome Pull} (r : Outcome Pull)
      → ((f : ℕ) → next_step (next f ctx) ctx ex ≡ (next f ctx child >>= k f))
      → Settles (λ f. next f ctx child) q
      → ((f : ℕ) → (q >>= k f) ≡ r)
      → Settles (λ f. next f ctx ex) r
  Settles-bind ex child k r same h res =
      Settles-step ex r
        (record { fuel = h.fuel; at = λ f le. same f ∙ ap (λ o. o >>= k f) (h.at f le) ∙ res f })

  -- A state that tests a row, and goes on as another state.
  module _ (ex other : Executor) (t : Tuple) (fl : Flow) (rest : Yields other fl) where
    Yields-if :
        (b : Bool) (n : ℕ)
        → ((f : ℕ)
            → n ≤ f
            → next_step (next f ctx) ctx ex
              ≡ elim b [ true ↦ ok (some t, other) | false ↦ next f ctx other ])
        → Yields ex (if b then emit t fl else fl)
    Yields-if true n step =
        (other, Settles-step ex (ok (some t, other)) (record { fuel = n; at = step }), rest)
    Yields-if false n step = Yields-defer ex other n step fl rest

    pub Yields-test :
        (v : Outcome Value) (n : ℕ)
        → ((f : ℕ)
            → n ≤ f
            → next_step (next f ctx) ctx ex ≡ (
                v >>= λ w. elim (is_truthy w) [
                  | true ↦ ok (some t, other)
                  | false ↦ next f ctx other
                ]))
        → Yields ex (keep_row v t fl)
    Yields-test (ok w) n step = Yields-if (is_truthy w) n step
    Yields-test (stop e) n step = Settles-step ex (stop e) (record { fuel = n; at = step })
