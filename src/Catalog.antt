-- ===== src/Catalog.antt =====
-- src/catalog.rs: schemas, and the resolution of column names.
use volcano_db.Base.{
  ℕ, suc, Bool, String, Option, none, some, List, [], ◌∷◌, ◌==◌, string_eq, if◌then◌else◌,
}
use volcano_db.HashMap
use volcano_db.HashMap.{HashMap}
use volcano_db.Text.{contains_dot, base_name}

pub data DataType : Type 0 where
  int_type float_type varchar_type bool_type : DataType

pub record Column : Type 0 where
  pub name : String
  pub data_type : DataType

pub record Schema : Type 0 where
  pub columns : List Column

-- `iter().position`
unfoldable pub position : (Column → Bool) → List Column → Option ℕ
position p [] = none
position p (c ∷ cs) =
    if p c then some 0 else elim (position p cs) [ none ↦ none | some i ↦ some (suc i) ]

-- Schema::find_col_idx: a qualified name matches a whole column name, a plain one the base name.
unfoldable pub find_col_idx : Schema → String → Option ℕ
unfolding position
find_col_idx s name =
    if contains_dot name
    then position (λ col. col.name == name) s.columns
    else position (λ col. base_name col.name == name) s.columns

pub record Catalog : Type 0 where
  pub tables : HashMap String Schema

abbrev pub empty_catalog : Catalog
empty_catalog = record { tables = [] }

unfoldable pub add_table : Catalog → String → Schema → Catalog
add_table c name schema = record { tables = HashMap.insert c.tables name schema }

unfoldable pub get_schema : Catalog → String → Option Schema
get_schema c name = HashMap.get c.tables name
