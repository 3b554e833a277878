-- ===== src/Apps/Orphans.antt =====
-- src/pake_apps/process.rs: a child that nothing can stop any more.
use selkies_core.Prelude.{ℕ, List, [], ◌∷◌, some, Text, ok}
use selkies_core.Apps.{PakeApp}
use selkies_core.Apps.Steps.{System, Step, checks, launches, exits, collects}

-- The manager with these entries and children, nothing stopped, and these launches under way.
abbrev state : List (Text × ℕ) → List ℕ → List Text → System
state rows live ids = record {
  manager = record { processes = rows; stopped_by_user = []; alive = live };
  launching = ids;
}

-- The application is started and its child `p` ends; the watchdog collects it.
abbrev pub crashed_once : {Env : Type 0} → PakeApp Env → ℕ → List (Step Env)
crashed_once app p =
    checks app.id ∷ launches (λ a. ok p) app.id (some app) ∷ exits p ∷ collects ∷ []

-- Then a request starts it with the child `q`, and the watchdog goes on and starts it with `r`.
abbrev pub started_twice : {Env : Type 0} → PakeApp Env → ℕ → ℕ → List (Step Env)
started_twice app q r =
    checks app.id
    ∷ launches (λ a. ok q) app.id (some app)
    ∷ launches (λ a. ok r) app.id (some app)
    ∷ []
