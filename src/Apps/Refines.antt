-- ===== src/Apps/Refines.antt =====
-- src/pake_apps/store.rs: the store does what the map of Apps/Spec says.
use mathlib.Core.Option
use selkies_core.Prelude.{
  ℕ, ◌≡◌, refl, sym, ap, ◌∙◌, true, false, List, [], ◌∷◌, Option, none, some, Text, same, same_refl,
  same_iff, not, ◌==◌, if◌then◌else◌, is_some, Bool-cases, inl, inr, arith, Result, ok, err,
}
use selkies_core.Apps.{
  PakeApp, Row, EnvCodec, StoreError, Sql, row_to_app, app_to_row, set_columns, if_changed,
  if_inserted, add, update, delete, get,
}
use selkies_core.Apps.Rows.{
  Lossless, stored, updated, row_to_app-app_to_row, row_to_app-set_columns,
}
use selkies_core.Apps.Spec.{Lawful, Op, Apps, Allowed, next_apps, Reads, Follows}

module _ {Env S : Type 0} (codec : EnvCodec Env) (sql : Sql S) (lossless : Lossless codec)
    (lawful : Lawful sql) where
  -- One operation, and the map after it.
  abbrev Simulates : Op Env → Apps Env → Result StoreError (Unit {0}) × S → Type 0
  Simulates op f (r, s') = Allowed op r f × Reads codec sql s' (next_apps op r f)

  -- What is read of a state whose rows are found as stated.
  read_back :
      (app : PakeApp Env) (k : Text) (s s' : S)
      → sql.find k s' ≡ (if same app.id k then some (app_to_row codec app) else sql.find k s)
      → get codec sql k s' ≡ (if same app.id k then some (stored app) else get codec sql k s)
  unfolding get
  read_back app k s s' h = elim (Bool-cases (same app.id k)) [
    | inl e ↦
        let found : sql.find k s' ≡ some (app_to_row codec app) = h ∙ rw e refl in
        rw (e, found, row_to_app-app_to_row codec lossless app) refl
    | inr e ↦ let found : sql.find k s' ≡ sql.find k s = h ∙ rw e refl in rw (e, found) refl
  ]

  nothing_found : (k : Text) (s : S) → sql.find k s ≡ none → get codec sql k s ≡ none
  unfolding get
  nothing_found k s h = rw h refl

  found_is : (k : Text) (s : S) → is_some (sql.find k s) ≡ is_some (get codec sql k s)
  unfolding get
  found_is k s = either (sql.find k s)
    where
      either : (o : Option Row) → is_some o ≡ is_some (Option.map (row_to_app codec) o)
      either none = refl
      either (some r) = refl

  add-Simulates :
      (app : PakeApp Env) (s : S) (f : Apps Env)
      → Reads codec sql s f
      → Simulates (Op.add_app app) f (add codec sql app s)
  unfolding add app_to_row
  add-Simulates app s f reads = go (sql.insert (app_to_row codec app) s) refl
    where
      go :
          (r : Result StoreError S)
          → sql.insert (app_to_row codec app) s ≡ r
          → Simulates (Op.add_app app) f (if_inserted r s)
      go (err e) h = (tt, reads)
      go (ok s') h = (
        sym (reads app.id)
            ∙ nothing_found app.id s
                ((lawful.inserted (app_to_row codec app) s s' app.id h).0 (same_refl app.id)),
        λ k.
            read_back app k s s' ((lawful.inserted (app_to_row codec app) s s' k h).1)
            ∙ ap (λ (o : Option (PakeApp Env)). if same app.id k then some (stored app) else o)
                (reads k),
      )

  -- The count that a statement gives says whether the id is there.
  counted :
      (k : Text) (s : S) (f : Apps Env) (n : ℕ)
      → Reads codec sql s f
      → n ≡ (if is_some (sql.find k s) then 1 else 0)
      → (n == 0) ≡ not (is_some (f k))
  counted k s f n reads h =
      let there : is_some (sql.find k s) ≡ is_some (f k) = found_is k s ∙ ap is_some (reads k) in
      let h' : n ≡ (if is_some (f k) then 1 else 0) = h ∙ rw there refl in
      elim (Bool-cases (is_some (f k))) [
        | inl e ↦ rw e (let one : n ≡ 1 = h' ∙ rw e refl in ground arith)
        | inr e ↦ rw e (let nil : n ≡ 0 = h' ∙ rw e refl in ground arith)
      ]

  none_of : (o : Option (PakeApp Env)) → true ≡ not (is_some o) → o ≡ none
  none_of none h = refl
  none_of (some x) h = cc

  some_of : (o : Option (PakeApp Env)) → false ≡ not (is_some o) → is_some o ≡ true
  some_of none h = cc
  some_of (some x) h = refl

  update_read :
      (app : PakeApp Env) (k : Text) (s s' : S)
      → sql.find k s' ≡ (
          if same app.id k
          then Option.map (set_columns (app_to_row codec app)) (sql.find k s)
          else sql.find k s)
      → get codec sql k s' ≡ (
          if same app.id k then Option.map (updated app) (get codec sql k s) else get codec sql k s)
  unfolding get
  update_read app k s s' h = elim (Bool-cases (same app.id k)) [
    | inl e ↦
        let found : sql.find k s' ≡ Option.map (set_columns (app_to_row codec app)) (sql.find k s) =
          h ∙ rw e refl in
        rw (e, found) (both (sql.find k s))
    | inr e ↦ let found : sql.find k s' ≡ sql.find k s = h ∙ rw e refl in rw (e, found) refl
  ]
    where
      both :
          (o : Option Row)
          → Option.map (row_to_app codec) (Option.map (set_columns (app_to_row codec app)) o)
            ≡ Option.map (updated app) (Option.map (row_to_app codec) o)
      both none = refl
      both (some row) = ap some (row_to_app-set_columns codec lossless app row)

  delete_read :
      (id k : Text) (s s' : S)
      → sql.find k s' ≡ (if same id k then none else sql.find k s)
      → get codec sql k s' ≡ (if same id k then none else get codec sql k s)
  unfolding get
  delete_read id k s s' h = elim (Bool-cases (same id k)) [
    | inl e ↦ let found : sql.find k s' ≡ none = h ∙ rw e refl in rw (e, found) refl
    | inr e ↦ let found : sql.find k s' ≡ sql.find k s = h ∙ rw e refl in rw (e, found) refl
  ]

  -- What changes only an entry that is not there changes nothing.
  untouched :
      (id k : Text) (f : Apps Env) (g : Option (PakeApp Env) → Option (PakeApp Env))
      → f id ≡ none
      → g none ≡ none
      → (if same id k then g (f k) else f k) ≡ f k
  untouched id k f g absent keeps = elim (Bool-cases (same id k)) [
    | inl e ↦
        let here : f k ≡ none = ap f (sym ((same_iff id k).0 e)) ∙ absent in rw (e, here) keeps
    | inr e ↦ rw e refl
  ]

  update-Simulates :
      (app : PakeApp Env) (s : S) (f : Apps Env)
      → Reads codec sql s f
      → Simulates (Op.update_app app) f (update codec sql app s)
  unfolding update app_to_row
  update-Simulates app s f reads = go (sql.update_where app.id (app_to_row codec app) s) refl
    where
      after :
          (n : ℕ) (s' : S)
          → sql.update_where app.id (app_to_row codec app) s ≡ ok (n, s')
          → (k : Text)
          → get codec sql k s' ≡ (if same app.id k then Option.map (updated app) (f k) else f k)
      after n s' h k =
          update_read app k s s' ((lawful.changed app.id (app_to_row codec app) s s' n k h).1)
          ∙ ap
              (λ (o : Option (PakeApp Env)).
                if same app.id k then Option.map (updated app) o else o)
              (reads k)

      go :
          (r : Result StoreError (ℕ × S))
          → sql.update_where app.id (app_to_row codec app) s ≡ r
          → Simulates (Op.update_app app) f (if_changed r s)
      go (err e) h = (tt, reads)
      go (ok (n, s')) h =
          let count =
            counted app.id s f n reads
              ((lawful.changed app.id (app_to_row codec app) s s' n app.id h).0) in
          elim (Bool-cases (n == 0)) [
            | inl z ↦
                let absent = none_of (f app.id) (sym z ∙ count) in
                rw z (
                  absent,
                  λ k. after n s' h k ∙ untouched app.id k f (Option.map (updated app)) absent refl,
                )
            | inr z ↦ rw z (some_of (f app.id) (sym z ∙ count), after n s' h)
          ]

  delete-Simulates :
      (id : Text) (s : S) (f : Apps Env)
      → Reads codec sql s f
      → Simulates (Op.delete_app id) f (delete codec sql id s)
  unfolding delete
  delete-Simulates id s f reads = go (sql.delete_where id s) refl
    where
      after :
          (n : ℕ) (s' : S)
          → sql.delete_where id s ≡ ok (n, s')
          → (k : Text) → get codec sql k s' ≡ (if same id k then none else f k)
      after n s' h k =
          delete_read id k s s' ((lawful.deleted id s s' n k h).1)
          ∙ ap (λ (o : Option (PakeApp Env)). if same id k then none else o) (reads k)

      go :
          (r : Result StoreError (ℕ × S))
          → sql.delete_where id s ≡ r
          → Simulates (Op.delete_app id) f (if_changed r s)
      go (err e) h = (tt, reads)
      go (ok (n, s')) h =
          let count = counted id s f n reads ((lawful.deleted id s s' n id h).0) in
          elim (Bool-cases (n == 0)) [
            | inl z ↦
                let absent = none_of (f id) (sym z ∙ count) in
                rw z (absent, λ k. after n s' h k ∙ untouched id k f (λ o. none) absent refl)
            | inr z ↦ rw z (some_of (f id) (sym z ∙ count), after n s' h)
          ]

  -- The store is a map from ids to applications: whatever additions, updates and deletions come,
  -- an addition succeeds only under a new id; an update or a deletion succeeds only for an id that is there, and
  -- is answered `not found` only for one that is not; an addition that succeeds makes the application found
  -- under its id, an update that succeeds changes all of it but the id, the name and the time of
  -- creation, a deletion that succeeds removes it, all else leaves every application as it was, and what fails changes nothing.
  -- An empty address or command is read back as a missing one. The codec reads back what it writes,
  -- and the table is lawful. The map at the start is what the store reads.
  pub run_refines :
      (ops : List (Op Env)) (s : S) (f : Apps Env) → Reads codec sql s f → Follows codec sql ops s f
  run_refines [] s f reads = reads
  run_refines (Op.add_app app ∷ ops) s f reads =
      let (answer, after) = add-Simulates app s f reads in (answer, run_refines ops _ _ after)
  run_refines (Op.update_app app ∷ ops) s f reads =
      let (answer, after) = update-Simulates app s f reads in (answer, run_refines ops _ _ after)
  run_refines (Op.delete_app id ∷ ops) s f reads =
      let (answer, after) = delete-Simulates id s f reads in (answer, run_refines ops _ _ after)
