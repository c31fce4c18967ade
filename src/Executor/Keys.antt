-- ===== src/Executor/Keys.antt =====
-- The group keys of src/executor.rs: values are joined with commas that a text may hold as well.
use text.Mathlib.TextLemmas.{append_assoc}
use volcano_db.Base.{◌≡◌, String, [], ◌∷◌}
use volcano_db.Platform.{Platform}
use volcano_db.Text.{◌^^◌, join}
use volcano_db.Storage.{varchar}
use volcano_db.Executor.Agg.{make_group_key, key_part}

module _ ⦃p : Platform⦄ where
  -- Two texts with `,s:` in the first have the group key of the two texts that split the same
  -- characters one place earlier: `a,s:b` and `c` have the key of `a` and `b,s:c`.
  pub make_group_key_collides :
      (a b c : String)
      → make_group_key (varchar (a ^^ ("," ^^ ("s:" ^^ b))) ∷ varchar c ∷ [])
        ≡ make_group_key (varchar a ∷ varchar (b ^^ ("," ^^ ("s:" ^^ c))) ∷ [])
  unfolding make_group_key key_part join
  make_group_key_collides a b c = simp append_assoc
