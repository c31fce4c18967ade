-- ===== src/Handler/Positions.antt =====
-- Rows by position: where a transaction's rows stand in a table, and what is left when the rows at
-- these positions are removed from the last one to the first, as the ROLLBACK of src/handler.rs does.
use mathlib.Core.List.{reverse, reverse-append, map-append, append-nil}
use volcano_db.Base.{
  ℕ, zero, suc, ◌≤◌, ◌≡◌, refl, ap, sym, ◌∙◌, Bool, not, String, Option, none, some, List, [], ◌∷◌,
  ◌++◌, map, arith, ◌==◌, string_eq, nat_eq, length, remove_at, filter, if◌then◌else◌, Bool-cases,
  inl, inr,
}
use volcano_db.HashMap
use volcano_db.HashMap.{HashMap, get-insert}
use volcano_db.Platform.{Platform}
use volcano_db.Storage.{Tuple}
use volcano_db.Tx.Records.{UndoRecord, insert}
use volcano_db.Handler.Rows.{Tables, undo_insert, undo_all}

module _ {ℓ} {A : Type ℓ} where
  abbrev pub positions : (A → Bool) → List A → List ℕ
  positions own [] = []
  positions own (x ∷ xs) =
      let later = map suc (positions own xs) in if own x then 0 ∷ later else later

  abbrev pub remove_each : List A → List ℕ → List A
  remove_each xs [] = xs
  remove_each xs (i ∷ is) = remove_each (remove_at xs i) is

  -- The last of the indices goes first.
  abbrev remove_back : List A → List ℕ → List A
  remove_back xs [] = xs
  remove_back xs (i ∷ is) = remove_at (remove_back xs is) i

  remove_each-append :
      (xs : List A) (is js : List ℕ)
      → remove_each xs (is ++ js) ≡ remove_each (remove_each xs is) js
  remove_each-append xs [] js = refl
  remove_each-append xs (i ∷ is) js = remove_each-append (remove_at xs i) is js

  remove_each-reverse :
      (xs : List A) (is : List ℕ) → remove_each xs (reverse is) ≡ remove_back xs is
  remove_each-reverse xs [] = refl
  remove_each-reverse xs (i ∷ is) =
      ap (remove_each xs) (reverse-append (i ∷ []) is)
      ∙ remove_each-append xs (reverse is) (i ∷ [])
      ∙ ap (λ ys. remove_at ys i) (remove_each-reverse xs is)

  remove_back-suc :
      (x : A) (xs : List A) (is : List ℕ)
      → remove_back (x ∷ xs) (map suc is) ≡ x ∷ remove_back xs is
  remove_back-suc x xs [] = refl
  remove_back-suc x xs (i ∷ is) = rw (remove_back-suc x xs is)

  remove_back-positions :
      (own : A → Bool) (xs : List A)
      → remove_back xs (positions own xs) ≡ filter (λ x. not (own x)) xs
  remove_back-positions own [] = refl
  remove_back-positions own (x ∷ xs) = elim (Bool-cases (own x)) [
    | inl h ↦ rw h (rw (remove_back-suc x xs (positions own xs)) (remove_back-positions own xs))
    | inr h ↦
        rw h (remove_back-suc x xs (positions own xs) ∙ ap (◌∷◌ x) (remove_back-positions own xs))
  ]

  -- From the last position to the first, each removal hits the row that it is meant for.
  pub remove_each-positions :
      (own : A → Bool) (xs : List A)
      → remove_each xs (reverse (positions own xs)) ≡ filter (λ x. not (own x)) xs
  remove_each-positions own xs =
      remove_each-reverse xs (positions own xs) ∙ remove_back-positions own xs

  pub positions-append :
      (own : A → Bool) (xs : List A) (x : A)
      → positions own (xs ++ (x ∷ []))
        ≡ (if own x then positions own xs ++ (length xs ∷ []) else positions own xs)
  positions-append own [] x = ground arith
  positions-append own (y ∷ ys) x =
      ground (arith, positions-append own ys x, map-append suc (positions own ys) (length ys ∷ []))

  remove_at_past : (xs : List A) (i : ℕ) → length xs ≤ i → remove_at xs i ≡ xs
  remove_at_past [] i h = refl
  remove_at_past (x ∷ xs) zero h = absurd (omega arith)
  remove_at_past (x ∷ xs) (suc i) h = ap (◌∷◌ x) (remove_at_past xs i (omega arith))

-- The positions that undo records name in one table.
abbrev pub indices : String → List UndoRecord → List ℕ
indices name [] = []
indices name (insert table i ∷ rest) =
    let later = indices name rest in if table == name then i ∷ later else later

pub indices-append :
    (name : String) (us vs : List UndoRecord)
    → indices name (us ++ vs) ≡ indices name us ++ indices name vs
indices-append name [] vs = refl
indices-append name (insert table i ∷ us) vs = elim (Bool-cases (table == name)) [
  | inl h ↦ rw h (ap (◌∷◌ i) (indices-append name us vs))
  | inr h ↦ rw h (indices-append name us vs)
]

pub indices-reverse :
    (name : String) (us : List UndoRecord) → indices name (reverse us) ≡ reverse (indices name us)
indices-reverse name [] = refl
indices-reverse name (insert table i ∷ us) =
    ap (indices name) (reverse-append (insert table i ∷ []) us)
    ∙ indices-append name (reverse us) (insert table i ∷ [])
    ∙ elim (Bool-cases (table == name)) [
      | inl h ↦ rw (h, indices-reverse name us) (sym (reverse-append (i ∷ []) (indices name us)))
      | inr h ↦ rw (h, indices-reverse name us) (append-nil (reverse (indices name us)))
    ]

module _ ⦃p : Platform⦄ where
  abbrev pub option_map {ℓ κ} : {A : Type ℓ} {B : Type κ} → (A → B) → Option A → Option B
  option_map f none = none
  option_map f (some a) = some (f a)

  undo_insert-get :
      (name table : String) (i : ℕ) (ts : Tables)
      → HashMap.get (undo_insert ts (insert table i)) name
        ≡ option_map
            (λ rows. if table == name then remove_at rows i else rows)
            (HashMap.get ts name)
  unfolding undo_insert
  undo_insert-get name table i ts = go (HashMap.get ts table) refl
    where
      go :
          (o : Option (List Tuple))
          → HashMap.get ts table ≡ o
          → HashMap.get (undo_insert ts (insert table i)) name
            ≡ option_map
                (λ rows. if table == name then remove_at rows i else rows)
                (HashMap.get ts name)
      go none e = ground (arith, string_eq.beq_iff table name)
      go (some rows) e = ground (
        arith,
        string_eq.beq_iff table name,
        get-insert ts table (remove_at rows i) name,
        remove_at_past rows i,
      )

  undo_all-cons :
      (ts : Tables) (u : UndoRecord) (us : List UndoRecord)
      → undo_all ts (u ∷ us) ≡ undo_all (undo_insert ts u) us
  unfolding undo_all
  undo_all-cons ts u us = refl

  -- Undo records act on each table alone.
  pub undo_all-get :
      (name : String) (us : List UndoRecord) (ts : Tables)
      → HashMap.get (undo_all ts us) name
        ≡ option_map (λ rows. remove_each rows (indices name us)) (HashMap.get ts name)
  undo_all-get name [] ts = unfold undo_all in same (HashMap.get ts name)
    where
      same : (o : Option (List Tuple)) → o ≡ option_map (λ rows. rows) o
      same none = refl
      same (some rows) = refl
  undo_all-get name (insert table i ∷ us) ts =
      ap (λ t. HashMap.get t name) (undo_all-cons ts (insert table i) us)
      ∙ undo_all-get name us (undo_insert ts (insert table i))
      ∙ ap (option_map (λ rows. remove_each rows (indices name us)))
          (undo_insert-get name table i ts)
      ∙ fused (HashMap.get ts name)
    where
      fused :
          (o : Option (List Tuple))
          → option_map
              (λ rows. remove_each rows (indices name us))
              (option_map (λ rows. if table == name then remove_at rows i else rows) o)
            ≡ option_map (λ rows. remove_each rows (indices name (insert table i ∷ us))) o
      fused none = refl
      fused (some rows) = elim (Bool-cases (table == name)) [ inl h ↦ rw h | inr h ↦ rw h ]
