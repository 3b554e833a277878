-- ===== src/Tests/Manager.antt =====
-- The process manager at a run.
use selkies_core.Prelude.{
  ℕ, ◌≡◌, refl, Bool, false, List, [], ◌∷◌, some, none, Text, codes, ◌++◌, Option, same, ok,
  if◌then◌else◌,
}
use selkies_core.Apps.{PakeApp, AppType}
use selkies_core.Apps.Process.{
  ProcessManager, Spawn, new, lookup, is_alive, contains, watchdog, status, ended, status_of,
  entered, remove, allow, erase, relaunch, collect, sweep, retained, crashed_ids,
}
use selkies_core.Apps.Steps.{
  Step, at_rest, checks, allows, launches, exits, collects, asks, marks, kills, run, step, checked,
  drop_one, launched,
}
use selkies_core.Apps.Tracked.{IsTracked}
use selkies_core.Apps.Turns.{AreApart, run-IsTracked}
use selkies_core.Apps.Stopped.{run-stop}
use selkies_core.Apps.Watchdog.{watchdog-lookup}

abbrev clock_app : PakeApp Text
clock_app = record {
  id = codes "clock";
  name = codes "Clock";
  app_type = AppType.desktop_app;
  url = none;
  mode = none;
  show_nav = false;
  exec_command = some (codes "xclock");
  env_vars = none;
  created_at = codes "2024-01-01T00:00:00Z";
}

abbrev spawn_as : ℕ → Spawn Text
spawn_as pid app = ok pid

abbrev shelf : Text → Option (PakeApp Text)
shelf id = if same id (codes "clock") then some clock_app else none

abbrev clock_id : Text
clock_id = codes "clock"

abbrev steps : List (Step Text)
steps =
    checks clock_id
    ∷ allows clock_id
    ∷ launches (spawn_as 7) clock_id (some clock_app)
    ∷ exits 7
    ∷ collects
    ∷ asks clock_id
    ∷ launches (spawn_as 9) clock_id (shelf clock_id)
    ∷ checks clock_id
    ∷ []

steps-AreApart : AreApart steps at_rest
unfolding run new step checked drop_one launched status status_of lookup entered relaunch collect
    sweep retained crashed_ids contains remove allow erase is_alive ended selkies_core.Prelude.same
steps-AreApart = (refl, (tt, (tt, (tt, (tt, (tt, (tt, (refl, tt))))))))

run-IsTracked_example : IsTracked (run steps at_rest).manager
run-IsTracked_example = run-IsTracked steps steps-AreApart

abbrev before_kill : List (Step Text)
before_kill = exits 9 ∷ collects ∷ []

abbrev after_kill : List (Step Text)
after_kill = launches (spawn_as 11) clock_id (shelf clock_id) ∷ collects ∷ []

none_launching : contains clock_id (run steps at_rest).launching ≡ false
unfolding run new step checked drop_one launched status status_of lookup entered relaunch collect
    sweep retained crashed_ids contains remove allow erase is_alive ended selkies_core.Prelude.same
none_launching = refl

run-stop_example :
    lookup clock_id
      (run
        (marks clock_id ∷ (before_kill ++ kills clock_id ∷ after_kill))
        (run steps at_rest)).manager.processes
    ≡ none
run-stop_example =
    run-stop clock_id before_kill after_kill (run steps at_rest) none_launching (tt, (tt, tt))
      (tt, (tt, tt))

abbrev crashed_manager : ProcessManager
crashed_manager = record { processes = (codes "clock", 7) ∷ []; stopped_by_user = []; alive = [] }

crashed-IsTracked : IsTracked crashed_manager
unfolding lookup is_alive
crashed-IsTracked = record { unique = (refl, tt); kept = λ q h. cc }

clock_entry : lookup (codes "clock") crashed_manager.processes ≡ some 7
unfolding lookup selkies_core.Prelude.same
clock_entry = refl

clock_ended : is_alive 7 crashed_manager.alive ≡ false
unfolding is_alive
clock_ended = refl

clock_allowed : contains (codes "clock") crashed_manager.stopped_by_user ≡ false
unfolding contains
clock_allowed = refl

clock_known : shelf (codes "clock") ≡ some clock_app
unfolding selkies_core.Prelude.same
clock_known = refl

watchdog-lookup_example :
    (lookup (codes "clock") (watchdog (spawn_as 9) shelf crashed_manager).processes ≡ some 9)
    × (lookup
          (codes "clock")
          (watchdog (spawn_as 9) shelf (status (codes "clock") crashed_manager).1).processes
        ≡ none)
watchdog-lookup_example =
    watchdog-lookup (spawn_as 9) shelf (codes "clock") clock_app 7 9 crashed_manager
      crashed-IsTracked clock_entry clock_ended clock_allowed clock_known refl
