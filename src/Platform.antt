-- ===== src/Platform.antt =====
-- What the program takes from outside src/ and the model does not define: the IEEE arithmetic of
-- `f64` and its formatting, the Unicode case tables, and the order in which a `HashMap` of std
-- yields its keys. Every definition that needs one of these takes it as an instance argument.
use volcano_db.Base.{ℕ, Bool, String, Option, List, Ordering}
use volcano_db.Base.Int.{ℤ}

pub record Platform : Type 1 where
  -- `f64`
  pub Float : Type 0
  pub of_i64 : ℤ → Float
  pub add : Float → Float → Float
  pub sub : Float → Float → Float
  pub mul : Float → Float → Float
  pub div : Float → Float → Float
  pub eq : Float → Float → Bool
  pub partial_cmp : Float → Float → Option Ordering
  pub show_float : Float → String
  -- `str::parse::<f64>`, with `none` for its error
  pub parse_float : String → Option Float
  -- `str::to_lowercase` and `str::to_uppercase`
  pub to_lowercase : String → String
  pub to_uppercase : String → String
  -- the order in which the keys of a hash map come
  pub hash_order : List String → List String
  pub hash_order_ids : List ℕ → List ℕ
