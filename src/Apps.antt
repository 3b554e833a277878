-- ===== src/Apps.antt =====
-- src/pake_apps/app.rs and store.rs. SQLite and `serde_json` are parameters: a table with its four
-- statements, and a codec of the environment variables.
pub mod Process
pub mod Steps
pub mod Entries
pub mod Tracked
pub mod Turns
pub mod Orphans
pub mod Stopped
pub mod Watchdog
pub mod Dates
pub mod Handlers
pub mod Created
pub mod Rows
pub mod Spec
pub mod Refines
use mathlib.Core.Option
use selkies_core.Prelude.{
  ℕ, Bool, true, false, not, Option, none, some, Text, codes, same, is_empty, trim, if◌then◌else◌,
  unwrap_or, and_then, ℤ, pos, negsuc, [], ◌==◌, is_some, Result, ok, err, or_fail, ◌>>=◌,
}

pub data AppType : Type 0 where
  web_app desktop_app : AppType

pub data AppMode : Type 0 where
  native webview : AppMode

unfoldable pub type_as_str : AppType → Text
type_as_str AppType.web_app = codes "webapp"
type_as_str AppType.desktop_app = codes "desktop"

unfoldable pub type_from_str : Text → Option AppType
type_from_str s =
    if same s (codes "webapp")
    then some AppType.web_app
    else if same s (codes "desktop")
    then some AppType.desktop_app
    else none

unfoldable pub mode_as_str : AppMode → Text
mode_as_str AppMode.native = codes "native"
mode_as_str AppMode.webview = codes "webview"

unfoldable pub mode_from_str : Text → Option AppMode
mode_from_str s =
    if same s (codes "native")
    then some AppMode.native
    else if same s (codes "webview")
    then some AppMode.webview
    else none

-- `Env` stands for `HashMap<String, String>`.
pub record PakeApp (Env : Type 0) : Type 0 where
  pub id : Text
  pub name : Text
  pub app_type : AppType
  pub url : Option Text
  pub mode : Option AppMode
  pub show_nav : Bool
  pub exec_command : Option Text
  pub env_vars : Option Env
  pub created_at : Text

-- A row as it is selected; a column may be NULL or of another type.
pub record Row : Type 0 where
  pub id : Option Text
  pub name : Option Text
  pub app_type : Option Text
  pub url : Option Text
  pub mode : Option Text
  pub show_nav : Option ℤ
  pub exec_command : Option Text
  pub env_vars : Option Text
  pub created_at : Option Text

-- `serde_json` on environment variables.
pub record EnvCodec (Env : Type 0) : Type 0 where
  pub to_string : Env → Option Text
  pub from_str : Text → Option Env

-- `row.get(..).ok().filter(|s| !s.is_empty())`.
abbrev pub not_empty : Option Text → Option Text
not_empty none = none
not_empty (some s) = if is_empty s then none else some s

-- `row.get::<_, i32>(5).unwrap_or(0) != 0`.
abbrev pub is_set : Option ℤ → Bool
is_set none = false
is_set (some (pos n)) = not (n == 0)
is_set (some (negsuc n)) = true

abbrev pub flag : Bool → ℤ
flag true = pos 1
flag false = pos 0

abbrev pub mode_text : Option AppMode → Text
mode_text none = []
mode_text (some m) = mode_as_str m

module _ {Env : Type 0} (codec : EnvCodec Env) where
  unfoldable pub row_to_app : Row → PakeApp Env
  unfolding type_from_str mode_from_str
  row_to_app row = record {
    id = unwrap_or row.id [];
    name = unwrap_or row.name [];
    app_type = unwrap_or (type_from_str (unwrap_or row.app_type (codes "webapp"))) AppType.web_app;
    url = not_empty row.url;
    mode = and_then (not_empty row.mode) mode_from_str;
    show_nav = is_set row.show_nav;
    exec_command = not_empty row.exec_command;
    env_vars = and_then (not_empty row.env_vars) codec.from_str;
    created_at = unwrap_or row.created_at [];
  }

  -- The parameters of INSERT.
  unfoldable pub app_to_row : PakeApp Env → Row
  unfolding type_as_str mode_as_str
  app_to_row app = record {
    id = some app.id;
    name = some app.name;
    app_type = some (type_as_str app.app_type);
    url = some (unwrap_or app.url []);
    mode = some (mode_text app.mode);
    show_nav = some (flag app.show_nav);
    exec_command = some (unwrap_or app.exec_command []);
    env_vars = some (unwrap_or (and_then app.env_vars codec.to_string) []);
    created_at = some app.created_at;
  }

-- The columns that UPDATE sets.
abbrev pub set_columns : Row → Row → Row
set_columns new old = record old {
  app_type = new.app_type;
  url = new.url;
  mode = new.mode;
  show_nav = new.show_nav;
  exec_command = new.exec_command;
  env_vars = new.env_vars;
}

pub data StoreError : Type 0 where
  name_exists : StoreError
  failed : StoreError
  not_found : StoreError

-- The table `apps` of a connection in state `S`: INSERT, which may be refused for a key or a name
-- that is taken or for another reason; UPDATE and DELETE by id, which may fail and count the rows
-- changed; SELECT by id.
pub record Sql (S : Type 0) : Type 0 where
  pub insert : Row → S → Result StoreError S
  pub update_where : Text → Row → S → Result StoreError (ℕ × S)
  pub delete_where : Text → S → Result StoreError (ℕ × S)
  pub find : Text → S → Option Row

-- `if changed == 0 { return Err(..) }`.
abbrev pub if_changed :
    {S : Type 0} → Result StoreError (ℕ × S) → S → Result StoreError (Unit {0}) × S
if_changed (err e) s = (err StoreError.failed, s)
if_changed (ok (n, s')) s = (if n == 0 then (err StoreError.not_found) else ok tt, s')

abbrev pub if_inserted : {S : Type 0} → Result StoreError S → S → Result StoreError (Unit {0}) × S
if_inserted (err e) s = (err e, s)
if_inserted (ok s') s = (ok tt, s')

module _ {Env S : Type 0} (codec : EnvCodec Env) (sql : Sql S) where
  unfoldable pub add : PakeApp Env → S → Result StoreError (Unit {0}) × S
  unfolding app_to_row
  add app s = if_inserted (sql.insert (app_to_row codec app) s) s

  unfoldable pub update : PakeApp Env → S → Result StoreError (Unit {0}) × S
  unfolding app_to_row
  update app s = if_changed (sql.update_where app.id (app_to_row codec app) s) s

  unfoldable pub delete : Text → S → Result StoreError (Unit {0}) × S
  delete id s = if_changed (sql.delete_where id s) s

  unfoldable pub get : Text → S → Option (PakeApp Env)
  unfolding row_to_app
  get id s = Option.map (row_to_app codec) (sql.find id s)
