-- ===== src/Storage.antt =====
-- src/storage.rs: values, rows, and the hand-written `PartialEq` and `PartialOrd` of values.
use Prim.Native.String.{compare as compare_text}
use volcano_db.Base.{
  ℕ, Bool, true, false, String, Option, none, some, List, Ordering, [], ◌∷◌, ◌==◌, string_eq, ◌&&◌,
  not,
}
use volcano_db.Base.Int.{ℤ, compare_ℤ, eq_ℤ}
use volcano_db.Platform.{Platform}
use volcano_db.Text.{show_i64}

module _ ⦃p : Platform⦄ where
  pub data Value : Type 0 where
    null : Value
    int : ℤ → Value
    float : p.Float → Value
    varchar : String → Value
    bool : Bool → Value

  -- Value::is_truthy
  unfoldable pub is_truthy : Value → Bool
  is_truthy (bool b) = b
  is_truthy null = false
  is_truthy _ = true

  abbrev pub show_bool : Bool → String
  show_bool true = "true"
  show_bool false = "false"

  -- `Display`
  unfoldable pub show_value : Value → String
  show_value null = "NULL"
  show_value (int i) = show_i64 i
  show_value (float f) = p.show_float f
  show_value (varchar s) = s
  show_value (bool b) = show_bool b

  pub record Tuple : Type 0 where
    pub values : List Value
    pub tx_id : Option ℕ
    pub scn : ℕ

  -- Tuple::new
  abbrev pub plain_tuple : List Value → Tuple
  plain_tuple vs = record { values = vs; tx_id = none; scn = 0 }

  -- Tuple::new_with_meta
  abbrev pub tuple_with_meta : List Value → Option ℕ → ℕ → Tuple
  tuple_with_meta vs t s = record { values = vs; tx_id = t; scn = s }

  abbrev pub eq_bool : Bool → Bool → Bool
  eq_bool true b = b
  eq_bool false b = not b

  -- `==` on values
  unfoldable pub eq_value : Value → Value → Bool
  eq_value null null = true
  eq_value (int a) (int b) = eq_ℤ a b
  eq_value (float a) (float b) = p.eq a b
  eq_value (int a) (float b) = p.eq (p.of_i64 a) b
  eq_value (float a) (int b) = p.eq a (p.of_i64 b)
  eq_value (varchar a) (varchar b) = a == b
  eq_value (bool a) (bool b) = eq_bool a b
  eq_value _ _ = false

  -- `==` on rows looks at the values alone.
  unfoldable pub eq_values : List Value → List Value → Bool
  eq_values [] [] = true
  eq_values (v ∷ vs) (w ∷ ws) = eq_value v w && eq_values vs ws
  eq_values _ _ = false

  unfoldable pub eq_tuple : Tuple → Tuple → Bool
  unfolding eq_values
  eq_tuple a b = eq_values a.values b.values

  abbrev pub compare_bool : Bool → Bool → Ordering
  compare_bool false true = Ordering.lt
  compare_bool true false = Ordering.gt
  compare_bool _ _ = Ordering.eq

  -- `partial_cmp` on values
  unfoldable pub cmp_value : Value → Value → Option Ordering
  cmp_value null null = some Ordering.eq
  cmp_value (int a) (int b) = some (compare_ℤ a b)
  cmp_value (float a) (float b) = p.partial_cmp a b
  cmp_value (int a) (float b) = p.partial_cmp (p.of_i64 a) b
  cmp_value (float a) (int b) = p.partial_cmp a (p.of_i64 b)
  cmp_value (varchar a) (varchar b) = some (compare_text a b)
  cmp_value (bool a) (bool b) = some (compare_bool a b)
  cmp_value _ _ = none

  abbrev pub is_some_lt : Option Ordering → Bool
  is_some_lt (some Ordering.lt) = true
  is_some_lt _ = false

  abbrev pub is_some_gt : Option Ordering → Bool
  is_some_gt (some Ordering.gt) = true
  is_some_gt _ = false

  abbrev pub is_some_eq : Option Ordering → Bool
  is_some_eq (some Ordering.eq) = true
  is_some_eq _ = false
