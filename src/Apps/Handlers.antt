-- ===== src/Apps/Handlers.antt =====
-- `add_app` and `update_app` of src/pake_apps/api.rs: the requests that write to the store. A body
-- is what it answers when asked for a field; the new id and the time are arguments. A reply is its
-- status with what is written into it.
use selkies_core.Prelude.{
  Bool, false, Option, none, some, Text, codes, is_empty, trim, if◌then◌else◌, unwrap_or, and_then,
  Result, ok, err, or_fail, ◌>>=◌,
}
use selkies_core.Apps.{
  AppType, AppMode, type_from_str, mode_from_str, PakeApp, EnvCodec, StoreError, Sql, add, update,
  get,
}

-- `body.get(k).and_then(as_str)`, `as_bool`, and the texts of the object `env_vars`.
pub record Body (Env : Type 0) : Type 0 where
  pub get_str : Text → Option Text
  pub get_bool : Text → Option Bool
  pub env_vars : Option Env

pub data Reply (Env : Type 0) : Type 0 where
  created : PakeApp Env → Reply Env
  updated : Reply Env
  bad_request : Text → Reply Env
  conflict not_updated : StoreError → Reply Env
  no_such_app : Reply Env

-- The text, trimmed, if it is not blank.
abbrev pub not_blank : Option Text → Option Text
not_blank none = none
not_blank (some s) = if is_empty (trim s) then none else some (trim s)

unfoldable pub app_type_of : {Env : Type 0} → Body Env → AppType
app_type_of body =
    unwrap_or (type_from_str (unwrap_or (body.get_str (codes "app_type")) (codes "webapp")))
      AppType.web_app

-- `or(Some(Native))`.
abbrev pub mode_of : Option AppMode → Option AppMode
mode_of none = some AppMode.native
mode_of (some m) = some m

unfoldable pub app_of :
    {Env : Type 0} → AppType → Text → Text → Text → Body Env → Result Text (PakeApp Env)
app_of AppType.web_app id now name body = do
  url ← or_fail (not_blank (body.get_str (codes "url"))) (codes "missing url for webapp")
  ok (record {
    id = id;
    name = name;
    app_type = AppType.web_app;
    url = some url;
    mode = mode_of (and_then (body.get_str (codes "mode")) mode_from_str);
    show_nav = unwrap_or (body.get_bool (codes "show_nav")) false;
    exec_command = none;
    env_vars = none;
    created_at = now;
  })
app_of AppType.desktop_app id now name body = do
  exec ←
      or_fail (not_blank (body.get_str (codes "exec_command")))
        (codes "missing exec_command for desktop app")
  ok (record {
    id = id;
    name = name;
    app_type = AppType.desktop_app;
    url = none;
    mode = none;
    show_nav = false;
    exec_command = some exec;
    env_vars = body.env_vars;
    created_at = now;
  })

unfoldable pub new_app : {Env : Type 0} → Text → Text → Body Env → Result Text (PakeApp Env)
new_app id now body = do
  name ← or_fail (not_blank (body.get_str (codes "name"))) (codes "missing name")
  app_of (app_type_of body) id now name body

abbrev pub added : {Env S : Type 0} → PakeApp Env → Result StoreError (Unit {0}) × S → Reply Env × S
added app (ok done, s) = (created app, s)
added app (err e, s) = (conflict e, s)

-- `if let Some(v) = ..`: the new value, if there is one.
abbrev pub replace {ℓ} : {A : Type ℓ} → Option A → A → A
replace none old = old
replace (some new) old = new

abbrev pub replace_text : Option Text → Option Text → Option Text
replace_text none old = old
replace_text (some new) old = some new

abbrev pub replace_mode : Option Text → Option AppMode → Option AppMode
replace_mode none old = old
replace_mode (some s) old = mode_from_str s

abbrev pub replace_env {ℓ} : {A : Type ℓ} → Option A → Option A → Option A
replace_env none old = old
replace_env (some new) old = some new

unfoldable pub edited : {Env : Type 0} → AppType → Body Env → PakeApp Env → PakeApp Env
edited AppType.web_app body app = record app {
  url = replace_text (body.get_str (codes "url")) app.url;
  mode = replace_mode (body.get_str (codes "mode")) app.mode;
  show_nav = replace (body.get_bool (codes "show_nav")) app.show_nav;
}
edited AppType.desktop_app body app = record app {
  exec_command = replace_text (body.get_str (codes "exec_command")) app.exec_command;
  env_vars = replace_env body.env_vars app.env_vars;
}

abbrev pub update_reply : {Env S : Type 0} → Result StoreError (Unit {0}) × S → Reply Env × S
update_reply (ok done, s) = (updated, s)
update_reply (err e, s) = (not_updated e, s)

module _ {Env S : Type 0} (codec : EnvCodec Env) (sql : Sql S) where
  unfoldable pub add_if : Result Text (PakeApp Env) → S → Reply Env × S
  add_if (err message) s = (bad_request message, s)
  add_if (ok app) s = added app (add codec sql app s)

  unfoldable pub add_app : Text → Text → Body Env → S → Reply Env × S
  add_app id now body s = add_if (new_app id now body) s

  unfoldable pub update_found : Body Env → Option (PakeApp Env) → S → Reply Env × S
  update_found body none s = (no_such_app, s)
  update_found body (some app) s = update_reply (update codec sql (edited app.app_type body app) s)

  unfoldable pub update_app : Text → Body Env → S → Reply Env × S
  update_app id body s = update_found body (get codec sql id s) s
