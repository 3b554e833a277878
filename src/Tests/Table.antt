-- ===== src/Tests/Table.antt =====
-- A table as a list of rows, for the applications of src/pake_apps/store.rs: it keeps what the store
-- relies on.
use mathlib.Core.Option
use selkies_core.Prelude.{
  ℕ, ◌≡◌, refl, sym, ap, ◌∙◌, Bool, true, false, List, [], ◌∷◌, Option, none, some, Text, same,
  same_iff, if◌then◌else◌, is_some, Bool-cases, inl, inr, arith, Result, ok, err,
}
use selkies_core.Apps.{Row, StoreError, Sql, set_columns}
use selkies_core.Apps.Spec.{Lawful, has_id}

unfoldable pub find : Text → List Row → Option Row
find k [] = none
find k (r ∷ rs) = if has_id r.id k then some r else find k rs

abbrev named : Option Text → Option Text → Bool
named (some a) (some b) = same a b
named _ _ = false

unfoldable pub name_taken : Option Text → List Row → Bool
name_taken name [] = false
name_taken name (r ∷ rs) = if named r.name name then true else name_taken name rs

abbrev id_taken : Option Text → List Row → Bool
id_taken none rs = false
id_taken (some id) rs = is_some (find id rs)

unfoldable pub insert : Row → List Row → Result StoreError (List Row)
unfolding find name_taken
insert row rs =
    if id_taken row.id rs
    then err StoreError.failed
    else if name_taken row.name rs
    then err StoreError.name_exists
    else ok (row ∷ rs)

abbrev count_of : Text → List Row → ℕ
count_of id rs = if is_some (find id rs) then 1 else 0

unfoldable pub set_where : Text → Row → List Row → List Row
set_where id row [] = []
set_where id row (r ∷ rs) = (if has_id r.id id then set_columns row r else r) ∷ set_where id row rs

unfoldable pub drop_where : Text → List Row → List Row
drop_where id [] = []
drop_where id (r ∷ rs) = let rest = drop_where id rs in if has_id r.id id then rest else r ∷ rest

abbrev pub list_sql : Sql (List Row)
list_sql = record {
  insert = insert;
  update_where = λ id row rs. ok (count_of id rs, set_where id row rs);
  delete_where = λ id rs. ok (count_of id rs, drop_where id rs);
  find = find;
}

abbrev SameIds : Option Text → Text → Text → Type 0
SameIds o id k = same id k ≡ true → has_id o id ≡ has_id o k

SameIds-intro : (o : Option Text) (id k : Text) → SameIds o id k
SameIds-intro o id k h = ap (has_id o) ((same_iff id k).0 h)

-- A row has one id.
one_id : (o : Option Text) (id k : Text) → has_id o id ≡ true → has_id o k ≡ true → same id k ≡ true
one_id none id k a b = cc
one_id (some x) id k a b = (same_iff id k).1 (sym ((same_iff x id).0 a) ∙ (same_iff x k).0 b)

find-set_where :
    (id k : Text) (row : Row) (rs : List Row)
    → find k (set_where id row rs)
      ≡ (if same id k then Option.map (set_columns row) (find k rs) else find k rs)
unfolding find set_where
find-set_where id k row [] = ground arith
find-set_where id k row (r ∷ rs) =
    ground (arith, find-set_where id k row rs, SameIds-intro r.id id k, one_id r.id id k)

find-drop_where :
    (id k : Text) (rs : List Row)
    → find k (drop_where id rs) ≡ (if same id k then none else find k rs)
unfolding find drop_where
find-drop_where id k [] = ground arith
find-drop_where id k (r ∷ rs) =
    ground (arith, find-drop_where id k rs, SameIds-intro r.id id k, one_id r.id id k)

insert_found :
    (row : Row) (rs rs' : List Row) (k : Text)
    → insert row rs ≡ ok rs'
    → (has_id row.id k ≡ true → find k rs ≡ none)
      × (find k rs' ≡ (if has_id row.id k then some row else find k rs))
unfolding insert
insert_found row rs rs' k h = elim (Bool-cases (id_taken row.id rs)) [
  | inl e ↦ absurd (refused (rw e at h))
  | inr e ↦ elim (Bool-cases (name_taken row.name rs)) [
    | inl d ↦ absurd (refused (rw (e, d) at h))
    | inr d ↦
        let added : ok (row ∷ rs) ≡ ok rs' = rw (e, d) at h in
        (λ is. free row.id e is, unfold find in ap (find k) (sym (rows added)))
  ]
]
  where
    refused : {e : StoreError} → ◌≡◌ {A = Result StoreError (List Row)} (err e) (ok rs') → ⊥
    refused h = cc

    rows : ◌≡◌ {A = Result StoreError (List Row)} (ok (row ∷ rs)) (ok rs') → row ∷ rs ≡ rs'
    rows h = cc

    absent : (o : Option Row) → is_some o ≡ false → o ≡ none
    absent none h = refl
    absent (some r) h = cc

    free : (id : Option Text) → id_taken id rs ≡ false → has_id id k ≡ true → find k rs ≡ none
    free none e is = cc
    free (some id) e is = rw (← (same_iff id k).0 is) (absent (find id rs) e)

abbrev count_in : Result StoreError (ℕ × List Row) → ℕ
count_in (ok (n, s)) = n
count_in (err e) = 0

abbrev rows_in : Result StoreError (ℕ × List Row) → List Row
rows_in (ok (n, s)) = s
rows_in (err e) = []

pair_first :
    {a b : ℕ} {s t : List Row}
    → ◌≡◌ {A = Result StoreError (ℕ × List Row)} (ok (a, s)) (ok (b, t))
    → (a ≡ b) × (s ≡ t)
pair_first h = (ap count_in h, ap rows_in h)

updated_rows :
    (id : Text) (row : Row) (s s' : List Row) (n : ℕ) (k : Text)
    → ◌≡◌ {A = Result StoreError (ℕ × List Row)}
        (ok (count_of id s, set_where id row s))
        (ok (n, s'))
    → (n ≡ count_of id s)
      × (find k s' ≡ (if same id k then Option.map (set_columns row) (find k s) else find k s))
updated_rows id row s s' n k h =
    let (count, rows) = pair_first h in
    (sym count, ap (find k) (sym rows) ∙ find-set_where id k row s)

dropped_rows :
    (id : Text) (s s' : List Row) (n : ℕ) (k : Text)
    → ◌≡◌ {A = Result StoreError (ℕ × List Row)} (ok (count_of id s, drop_where id s)) (ok (n, s'))
    → (n ≡ count_of id s) × (find k s' ≡ (if same id k then none else find k s))
dropped_rows id s s' n k h =
    let (count, rows) = pair_first h in (sym count, ap (find k) (sym rows) ∙ find-drop_where id k s)

pub list_sql-Lawful : Lawful list_sql
list_sql-Lawful = record {
  inserted = insert_found;
  changed = λ id row s s' n k h. updated_rows id row s s' n k h;
  deleted = λ id s s' n k h. dropped_rows id s s' n k h;
}
