-- ===== src/Apps/Steps.antt =====
-- src/pake_apps/process.rs with requests and the watchdog side by side: a step is what one of them
-- does between taking a lock and giving it back, so that anything may come between two steps of one
-- operation. A start is `checks`, `allows` and `launches`, a stop is `marks` and `kills`, a restart is
-- a stop and a start, and a turn of the watchdog is `collects` and one `launches` for each id.
use selkies_core.Prelude.{ℕ, List, [], ◌∷◌, ◌++◌, Option, Text, same, if◌then◌else◌}
use selkies_core.Apps.{PakeApp}
use selkies_core.Apps.Process.{
  ProcessManager, AppStatus, is_running_status, contains, ended, Spawn, status, allow, mark, kill,
  relaunch, collect, stop_all, new,
}

-- `launching` holds the ids that a start has found not running, or the watchdog has collected, and
-- whose child is not entered yet.
pub record System : Type 0 where
  pub manager : ProcessManager
  pub launching : List Text

abbrev pub at_rest : System
at_rest = record { manager = new; launching = [] }

pub data Step (Env : Type 0) : Type 0 where
  checks allows marks kills asks : Text → Step Env
  launches : Spawn Env → Text → Option (PakeApp Env) → Step Env
  exits : ℕ → Step Env
  collects stops_all : Step Env

-- A start goes on unless the application runs.
unfoldable pub checked : Text → AppStatus × ProcessManager → System → System
checked id (st, m) s = record {
  manager = m;
  launching = if is_running_status st then s.launching else id ∷ s.launching;
}

-- One launch of the id is done.
unfoldable pub drop_one : Text → List Text → List Text
drop_one id [] = []
drop_one id (a ∷ ids) = let rest = drop_one id ids in if same id a then ids else a ∷ rest

unfoldable pub launched : {Env : Type 0} → Spawn Env → Text → Option (PakeApp Env) → System → System
launched spawn id o s =
    if contains id s.launching
    then record { manager = relaunch spawn id o s.manager; launching = drop_one id s.launching }
    else s

unfoldable pub step : {Env : Type 0} → Step Env → System → System
step (checks id) s = checked id (status id s.manager) s
step (allows id) s = record s { manager = allow id s.manager }
step (marks id) s = record s { manager = mark id s.manager }
step (kills id) s = record s { manager = (kill id s.manager).1 }
step (asks id) s = record s { manager = (status id s.manager).1 }
step (launches spawn id o) s = launched spawn id o s
step (exits pid) s = record s { manager = record s.manager { alive = ended pid s.manager.alive } }
step collects s = record {
  manager = (collect s.manager).1;
  launching = s.launching ++ (collect s.manager).0;
}
step stops_all s = record s { manager = stop_all s.manager }

unfoldable pub run : {Env : Type 0} → List (Step Env) → System → System
run [] s = s
run (x ∷ steps) s = run steps (step x s)
