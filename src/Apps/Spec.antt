-- ===== src/Apps/Spec.antt =====
-- src/pake_apps/store.rs: what it relies on of SQLite (`Lawful`), and what it is, a map from ids to
-- applications.
use mathlib.Core.Option
use selkies_core.Prelude.{
  ℕ, ◌≡◌, Bool, true, false, List, [], ◌∷◌, Option, none, some, Text, same, if◌then◌else◌, is_some,
  Result, ok, err,
}
use selkies_core.Apps.{
  PakeApp, Row, EnvCodec, StoreError, Sql, set_columns, add, update, delete, get,
}
use selkies_core.Apps.Rows.{stored, updated}

abbrev pub has_id : Option Text → Text → Bool
has_id none k = false
has_id (some id) k = same id k

-- The four statements on a table whose primary key is the id: a row that is inserted was not there,
-- and is found from then on; an update and a delete concern the row with that id alone, and count
-- it if it is there.
pub record Lawful {S : Type 0} (sql : Sql S) : Type 0 where
  pub inserted :
      (row : Row) (s s' : S) (k : Text)
      → sql.insert row s ≡ ok s'
      → (has_id row.id k ≡ true → sql.find k s ≡ none)
        × (sql.find k s' ≡ (if has_id row.id k then some row else sql.find k s))
  pub changed :
      (id : Text) (row : Row) (s s' : S) (n : ℕ) (k : Text)
      → sql.update_where id row s ≡ ok (n, s')
      → (n ≡ (if is_some (sql.find id s) then 1 else 0))
        × (sql.find k s'
            ≡ (if same id k then Option.map (set_columns row) (sql.find k s) else sql.find k s))
  pub deleted :
      (id : Text) (s s' : S) (n : ℕ) (k : Text)
      → sql.delete_where id s ≡ ok (n, s')
      → (n ≡ (if is_some (sql.find id s) then 1 else 0))
        × (sql.find k s' ≡ (if same id k then none else sql.find k s))

pub data Op (Env : Type 0) : Type 0 where
  add_app : PakeApp Env → Op Env
  update_app : PakeApp Env → Op Env
  delete_app : Text → Op Env

-- The store as a map.
abbrev pub Apps : Type 0 → Type 0
Apps Env = Text → Option (PakeApp Env)

-- What the map allows an operation to answer. A statement may fail for reasons of its own, and an
-- insertion also for a name that is taken.
abbrev pub Allowed : {Env : Type 0} → Op Env → Result StoreError (Unit {0}) → Apps Env → Type 0
Allowed (Op.add_app app) (ok done) f = f app.id ≡ none
Allowed (Op.add_app app) (err e) f = Unit
Allowed (Op.update_app app) (ok done) f = is_some (f app.id) ≡ true
Allowed (Op.update_app app) (err StoreError.not_found) f = f app.id ≡ none
Allowed (Op.update_app app) (err e) f = Unit
Allowed (Op.delete_app id) (ok done) f = is_some (f id) ≡ true
Allowed (Op.delete_app id) (err StoreError.not_found) f = f id ≡ none
Allowed (Op.delete_app id) (err e) f = Unit

-- The map after it.
abbrev pub next_apps : {Env : Type 0} → Op Env → Result StoreError (Unit {0}) → Apps Env → Apps Env
next_apps (Op.add_app app) (ok done) f k = if same app.id k then some (stored app) else f k
next_apps (Op.update_app app) (ok done) f k =
    if same app.id k then Option.map (updated app) (f k) else f k
next_apps (Op.delete_app id) (ok done) f k = if same id k then none else f k
next_apps op (err e) f k = f k

module _ {Env S : Type 0} (codec : EnvCodec Env) (sql : Sql S) where
  abbrev pub perform : Op Env → S → Result StoreError (Unit {0}) × S
  perform (Op.add_app app) s = add codec sql app s
  perform (Op.update_app app) s = update codec sql app s
  perform (Op.delete_app id) s = delete codec sql id s

  -- The map reads as the store does.
  abbrev pub Reads : S → Apps Env → Type 0
  Reads s f = (k : Text) → get codec sql k s ≡ f k

  -- A run of operations is one of the map's: each answer is allowed, and at the end the map reads
  -- as the store does.
  abbrev pub Follows : List (Op Env) → S → Apps Env → Type 0
  Follows [] s f = Reads s f
  Follows (op ∷ ops) s f =
      Allowed op (perform op s).0 f × Follows ops (perform op s).1 (next_apps op (perform op s).0 f)
