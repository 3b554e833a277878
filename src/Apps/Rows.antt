-- ===== src/Apps/Rows.antt =====
-- src/pake_apps/store.rs: an application written to a row of the table and read back.
use selkies_core.Prelude.{
  ℕ, ◌≡◌, refl, [], ◌∷◌, Bool, true, false, Option, none, some, Text, same, and_then, unwrap_or,
}
use selkies_core.Apps.{
  AppType, AppMode, type_as_str, type_from_str, mode_as_str, mode_from_str, PakeApp, Row, EnvCodec,
  not_empty, is_set, flag, mode_text, row_to_app, app_to_row, set_columns,
}

-- The codec writes a text, which it reads back.
abbrev pub Lossless : {Env : Type 0} → EnvCodec Env → Type 0
Lossless {Env} codec =
    (v : Env)
    → (c : ℕ) × (t : Text) × (codec.to_string v ≡ some (c ∷ t)) × (codec.from_str (c ∷ t) ≡ some v)

-- The store keeps no difference between a missing text and an empty one.
abbrev pub stored : {Env : Type 0} → PakeApp Env → PakeApp Env
stored app = record app { url = not_empty app.url; exec_command = not_empty app.exec_command }

-- What an update keeps of the application that it replaces.
abbrev pub updated : {Env : Type 0} → PakeApp Env → PakeApp Env → PakeApp Env
updated app old = record (stored app) { id = old.id; name = old.name; created_at = old.created_at }

type_back : (t : AppType) → unwrap_or (type_from_str (type_as_str t)) AppType.web_app ≡ t
unfolding type_from_str type_as_str same
type_back AppType.web_app = refl
type_back AppType.desktop_app = refl

mode_back : (m : Option AppMode) → and_then (not_empty (some (mode_text m))) mode_from_str ≡ m
unfolding mode_from_str mode_as_str same
mode_back none = refl
mode_back (some AppMode.native) = refl
mode_back (some AppMode.webview) = refl

text_back : (o : Option Text) → not_empty (some (unwrap_or o [])) ≡ not_empty o
text_back none = refl
text_back (some s) = refl

flag_back : (b : Bool) → is_set (some (flag b)) ≡ b
flag_back true = refl
flag_back false = refl

module _ {Env : Type 0} (codec : EnvCodec Env) (lossless : Lossless codec) where
  env_back :
      (o : Option Env)
      → and_then (not_empty (some (unwrap_or (and_then o codec.to_string) []))) codec.from_str ≡ o
  env_back none = refl
  env_back (some v) = let (c, t, written, back) = lossless v in rw written back

  pub row_to_app-app_to_row :
      (app : PakeApp Env) → row_to_app codec (app_to_row codec app) ≡ stored app
  unfolding row_to_app app_to_row
  row_to_app-app_to_row app =
      rw
        (
          type_back app.app_type,
          mode_back app.mode,
          text_back app.url,
          text_back app.exec_command,
          flag_back app.show_nav,
          env_back app.env_vars,
        )
        refl

  pub row_to_app-set_columns :
      (app : PakeApp Env) (row : Row)
      → row_to_app codec (set_columns (app_to_row codec app) row)
        ≡ updated app (row_to_app codec row)
  unfolding row_to_app app_to_row
  row_to_app-set_columns app row =
      rw
        (
          type_back app.app_type,
          mode_back app.mode,
          text_back app.url,
          text_back app.exec_command,
          flag_back app.show_nav,
          env_back app.env_vars,
        )
        refl
