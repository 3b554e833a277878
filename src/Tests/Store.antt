-- ===== src/Tests/Store.antt =====
-- The applications on a small table, and a date.
use selkies_core.Prelude.{
  ℕ, ◌≡◌, refl, List, [], ◌∷◌, Option, none, some, false, Text, codes, show, same, if◌then◌else◌,
}
use selkies_core.Apps.{AppType, AppMode, PakeApp, EnvCodec, get}
use selkies_core.Apps.Rows.{Lossless}
use selkies_core.Apps.Handlers.{Body, add_app}
use selkies_core.Apps.Created.{Promises, add_app-Promises}
use selkies_core.Apps.Spec.{Op, Follows}
use selkies_core.Apps.Refines.{run_refines}
use selkies_core.Apps.Dates.{Timestamp, fields_at, IsTime, seconds_of, fields_at_lem, chrono_now}
use selkies_core.Apps.Dates
use selkies_core.Tests.Table.{find, list_sql, list_sql-Lawful}

abbrev first : Text → Option ℕ
first [] = none
first (c ∷ s) = some c

-- Variables are one number, written as one character.
abbrev codec : EnvCodec ℕ
codec = record { to_string = λ n. some (n ∷ []); from_str = first }

codec-Lossless : Lossless codec
codec-Lossless v = (v, [], refl, refl)

abbrev clock : PakeApp ℕ
clock = record {
  id = codes "1";
  name = codes "clock";
  app_type = AppType.web_app;
  url = some (codes "http://clock");
  mode = some AppMode.native;
  show_nav = false;
  exec_command = none;
  env_vars = some 5;
  created_at = codes "2026-01-01T00:00:00Z";
}

abbrev calls : List (Op ℕ)
calls =
    Op.add_app clock
    ∷ Op.add_app clock
    ∷ Op.update_app (record clock { mode = some AppMode.webview })
    ∷ Op.delete_app (codes "2")
    ∷ []

nothing : (k : Text) → get codec list_sql k [] ≡ none
unfolding get
nothing k = unfold find in refl

run_refines_example : Follows codec list_sql calls [] (λ k. none)
run_refines_example =
    run_refines codec list_sql codec-Lossless list_sql-Lawful calls [] (λ k. none) nothing

fields_at_lem_example :
    (t : Timestamp) × (fields_at 1709210096 ≡ some t) × IsTime t × (seconds_of t ≡ 1709210096)
fields_at_lem_example = fields_at_lem 1709210096

-- The last of February in a leap year.
leap_day : chrono_now 1709210096 ≡ some (codes "2024-02-29T12:34:56Z")
unfolding chrono_now Dates.fields_at show
leap_day = refl

abbrev form : Body ℕ
form = record {
  get_str = λ key.
      if same key (codes "name")
      then some (codes " clock ")
      else if same key (codes "url")
      then some (codes "http://clock")
      else none;
  get_bool = λ key. none;
  env_vars = none;
}

add_app-Promises_example :
    Promises codec list_sql
      (codes "1")
      form
      []
      (add_app codec list_sql (codes "1") (codes "2026-01-01T00:00:00Z") form []).0
      (add_app codec list_sql (codes "1") (codes "2026-01-01T00:00:00Z") form []).1
add_app-Promises_example =
    add_app-Promises codec list_sql codec-Lossless list_sql-Lawful (codes "1")
      (codes "2026-01-01T00:00:00Z") form []
