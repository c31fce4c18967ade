-- ===== src/Tests/Fixture.antt =====
-- A platform whose floats are the whole numbers and whose texts have no case, and a small database.
use volcano_db.Base.{
  Bool, String, Option, none, some, List, [], ◌∷◌, ℕ, ◌==◌, string_eq, if◌then◌else◌, true,
}
use volcano_db.Base.Int.{ℤ, pos, ◌+ℤ◌, ◌-ℤ◌, ◌*ℤ◌, div_trunc, eq_ℤ, compare_ℤ}
use volcano_db.Platform.{Platform}
use volcano_db.Text.{show_i64, parse_i64, base_name}
use volcano_db.Catalog.{Schema, int_type, varchar_type}
use volcano_db.Storage.{int, varchar, Tuple, tuple_with_meta}
use volcano_db.Planner.Expr.{col_ref, const, binary_op, star}
use volcano_db.Planner.Plan.{LogicalPlan, scan, filter, project, limit, sort, join, agg}
use volcano_db.Tx.Records.{RedoRecord, Serde}
use volcano_db.Tx.Manager.{new_manager}
use volcano_db.Session.{SessionState}
use volcano_db.Handler.Defs.{DatabaseState}

instance abbrev pub whole_numbers : Platform
whole_numbers = record {
  Float = ℤ;
  of_i64 = λ i. i;
  add = λ a b. a +ℤ b;
  sub = λ a b. a -ℤ b;
  mul = λ a b. a *ℤ b;
  div = λ a b. div_trunc a b;
  eq = λ a b. eq_ℤ a b;
  partial_cmp = λ a b. some (compare_ℤ a b);
  show_float = λ f. show_i64 f;
  parse_float = λ s. parse_i64 (base_name s);
  to_lowercase = λ s. s;
  to_uppercase = λ s. s;
  hash_order = λ ks. ks;
  hash_order_ids = λ ks. ks;
}

abbrev pub users_schema : Schema
users_schema = record {
  columns =
      record { name = "id"; data_type = int_type }
      ∷ record { name = "name"; data_type = varchar_type }
      ∷ [];
}

abbrev pub row : ℕ → String → Option ℕ → Tuple
row i name tx = tuple_with_meta (int (pos i) ∷ varchar name ∷ []) tx 0

-- The second row belongs to a transaction that is not committed.
abbrev pub users : List Tuple
users = row 3 "c" none ∷ row 2 "b" (some 7) ∷ row 1 "a" none ∷ row 0 "z" none ∷ []

abbrev pub database : DatabaseState
database = record {
  catalog = record { tables = ("users", users_schema) ∷ [] };
  tables = ("users", users) ∷ [];
  tx_mgr = new_manager [] true;
}

abbrev pub session : SessionState
session = record { session_id = 1; current_tx_id = none; cr_scn = 0 }

-- SELECT name FROM users WHERE id > 0 ORDER BY name LIMIT 2
abbrev pub two_names : LogicalPlan
two_names =
    limit
      (sort
        (project (filter (scan "users" none) (binary_op ">" (col_ref "id") (const (int (pos 0)))))
          ((col_ref "users.name", "name") ∷ []))
        ((col_ref "name", Bool.true) ∷ []))
      (some 2) none

-- SELECT COUNT(*) FROM users JOIN users AS v ON users.id < v.id
abbrev pub pairs : LogicalPlan
pairs =
    agg
      (join (scan "users" none) (scan "users" (some "v"))
        (some (binary_op "<" (col_ref "users.id") (col_ref "v.id"))))
      [] (("count", star, "count(*)") ∷ [])

abbrev line_of : RedoRecord → String
line_of (RedoRecord.begin t s) = "begin"
line_of (RedoRecord.insert t s name vals i) = "insert"
line_of (RedoRecord.commit t s) = "commit"
line_of (RedoRecord.rollback t s) = "rollback"

-- serde_json on the records of one transaction
instance abbrev pub short_lines : Serde
short_lines = record {
  to_string = λ r. some (line_of r);
  from_str = λ s.
      if s == "begin"
      then some (RedoRecord.begin 1 0)
      else if s == "insert"
      then some (RedoRecord.insert 1 0 "users" (int (pos 4) ∷ varchar "d" ∷ []) 4)
      else if s == "commit"
      then some (RedoRecord.commit 1 1)
      else none;
}
