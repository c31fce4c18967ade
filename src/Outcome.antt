-- ===== src/Outcome.antt =====
-- The ways in which a call of the source ends: with a value, with an `anyhow` error (one constructor
-- for each message), by a panic, or, in the model alone, with its fuel used up.
use volcano_db.Base.{Bool, true, false, if◌then◌else◌, ℕ, ◌≡◌, refl, ◌⊎◌, inl, inr, String}

pub data Error : Type 0 where
  -- planner.rs
  star_not_evaluable star_has_no_type arithmetic_not_numeric : Error
  column_not_found : String → Error
  aggregate_outside : String → String → Error
  invalid_types : String → Error
  division_by_zero : Error
  unsupported_operator : String → Error
  cannot_aggregate : Error
  unsupported_aggregate : String → Error
  table_not_in_catalog : String → Error
  -- executor.rs
  table_not_in_storage : String → Error
  -- handler.rs
  transaction_active no_active_transaction : Error
  table_exists : String → Error
  table_not_found : String → Error
  storage_not_initialized : String → Error
  column_count_mismatch : ℕ → ℕ → Error
  insert_value_failed : ℕ → Error
  -- bind_statement and its helpers, each with the text that its message shows
  parse_failed : String → Error
  empty_query missing_source only_values group_by_all subquery_argument : Error
  unsupported_argument : Error
  unsupported_datatype unsupported_statement unsupported_literal : String → Error
  unsupported_function unsupported_expression unsupported_body : String → Error
  unsupported_join unsupported_item unsupported_factor invalid_number : String → Error

pub data Fault : Type 0 where
  index_out_of_bounds division_overflow unknown_aggregate missing_key : Fault

pub data Stop : Type 0 where
  err : Error → Stop
  panic : Fault → Stop
  out_of_fuel : Stop

pub data Outcome {ℓ} (A : Type ℓ) : Type ℓ where
  ok : A → Outcome A
  stop : Stop → Outcome A

-- The `?` operator.
infixl 5 ◌>>=◌ ◌>>◌
abbrev pub ◌>>=◌ {ℓ κ} : {A : Type ℓ} {B : Type κ} → Outcome A → (A → Outcome B) → Outcome B
ok a >>= f = f a
stop s >>= f = stop s

abbrev pub ◌>>◌ {ℓ} : {B : Type ℓ} → Outcome (Unit {0}) → Outcome B → Outcome B
m >> k = m >>= λ _. k

abbrev pub fail {ℓ} : {A : Type ℓ} → Error → Outcome A
fail e = stop (err e)

-- `unwrap_or`
abbrev pub ok_or {ℓ} : {A : Type ℓ} → Outcome A → A → A
ok_or (ok a) d = a
ok_or (stop s) d = d

pub Outcome-cases {ℓ} :
    {A : Type ℓ} (o : Outcome A) → ((a : A) × (o ≡ ok a)) ⊎ ((s : Stop) × (o ≡ stop s))
Outcome-cases (ok a) = inl (a, refl)
Outcome-cases (stop s) = inr (s, refl)

-- A chain that ends well went well at its first step.
pub bind_ok {ℓ κ} :
    {A : Type ℓ} {B : Type κ} (o : Outcome A) (f : A → Outcome B) {b : B}
    → (o >>= f) ≡ ok b
    → (a : A) × (o ≡ ok a) × (f a ≡ ok b)
bind_ok (ok a) f e = (a, refl, e)
bind_ok (stop s) f e = cc

pub ok-injective {ℓ} : {A : Type ℓ} {a b : A} → ok a ≡ ok b → a ≡ b
ok-injective e = cc

-- An end that more fuel does not change.
abbrev pub IsFinalStop : Stop → Type 0
IsFinalStop out_of_fuel = ⊥
IsFinalStop (err e) = Unit
IsFinalStop (panic f) = Unit

abbrev pub IsFinal {ℓ} : {A : Type ℓ} → Outcome A → Type 0
IsFinal (stop x) = IsFinalStop x
IsFinal (ok a) = Unit

pub bind-IsFinal {ℓ κ} :
    {A : Type ℓ} {B : Type κ} (o : Outcome A) (f : A → Outcome B)
    → IsFinal o
    → ((a : A) → IsFinal (f a))
    → IsFinal (o >>= f)
bind-IsFinal (ok a) f h k = k a
bind-IsFinal (stop x) f h k = h

pub if-IsFinal {ℓ} :
    {A : Type ℓ} (b : Bool) (o q : Outcome A) → IsFinal o → IsFinal q → IsFinal (if b then o else q)
if-IsFinal true o q h k = h
if-IsFinal false o q h k = k
