-- ===== src/Apps/Process.antt =====
-- src/pake_apps/process.rs: the process manager. The map of running applications and the set of
-- those stopped by the user are lists, and `alive` holds the children that have not ended: a wait
-- for a child that fails counts as its end, as in the code. Building and spawning an application's
-- command and the lookup in the store are parameters. Apps/Steps takes the operations apart at
-- their locks.
use selkies_core.Prelude.{
  ℕ, Bool, true, false, ◌||◌, List, [], ◌∷◌, Option, none, some, Text, codes, same, ◌==◌,
  if◌then◌else◌, Result, ok, err,
}
use selkies_core.Apps.{PakeApp}

pub data AppStatus : Type 0 where
  running stopped crashed : AppStatus

abbrev pub is_running_status : AppStatus → Bool
is_running_status running = true
is_running_status _ = false

-- An entry is an id with the child's number.
pub record ProcessManager : Type 0 where
  pub processes : List (Text × ℕ)
  pub stopped_by_user : List Text
  pub alive : List ℕ

unfoldable pub new : ProcessManager
new = record { processes = []; stopped_by_user = []; alive = [] }

-- `HashMap::get`, `remove` and `insert`.
unfoldable pub lookup : Text → List (Text × ℕ) → Option ℕ
lookup id [] = none
lookup id ((a, p) ∷ rows) = if same id a then some p else lookup id rows

unfoldable pub remove : Text → List (Text × ℕ) → List (Text × ℕ)
remove id [] = []
remove id ((a, p) ∷ rows) = let rest = remove id rows in if same id a then rest else (a, p) ∷ rest

abbrev pub insert : Text → ℕ → List (Text × ℕ) → List (Text × ℕ)
insert id p rows = (id, p) ∷ remove id rows

-- `HashSet::contains` and `remove`.
unfoldable pub contains : Text → List Text → Bool
contains id [] = false
contains id (a ∷ ids) = same id a || contains id ids

unfoldable pub erase : Text → List Text → List Text
erase id [] = []
erase id (a ∷ ids) = let rest = erase id ids in if same id a then rest else a ∷ rest

unfoldable pub is_alive : ℕ → List ℕ → Bool
is_alive pid [] = false
is_alive pid (p ∷ alive) = pid == p || is_alive pid alive

-- The child has ended.
unfoldable pub ended : ℕ → List ℕ → List ℕ
ended pid [] = []
ended pid (p ∷ alive) = let rest = ended pid alive in if pid == p then rest else p ∷ rest

abbrev pub Spawn : Type 0 → Type 0
Spawn Env = PakeApp Env → Result Text ℕ

unfoldable pub status_of : Text → Option ℕ → ProcessManager → AppStatus × ProcessManager
status_of id none m = (stopped, m)
status_of id (some pid) m =
    if is_alive pid m.alive
    then (running, m)
    else (crashed, record m { processes = remove id m.processes })

unfoldable pub status : Text → ProcessManager → AppStatus × ProcessManager
status id m = status_of id (lookup id m.processes) m

-- A spawned child is alive, and entered under the id.
unfoldable pub entered : Text → Result Text ℕ → ProcessManager → Result Text ℕ × ProcessManager
entered id (err e) m = (err e, m)
entered id (ok pid) m =
    (ok pid, record m { processes = insert id pid m.processes; alive = pid ∷ m.alive })

unfoldable pub allow : Text → ProcessManager → ProcessManager
allow id m = record m { stopped_by_user = erase id m.stopped_by_user }

unfoldable pub start_unless :
    {Env : Type 0}
    → Spawn Env
    → PakeApp Env
    → AppStatus × ProcessManager
    → Result Text ℕ × ProcessManager
start_unless spawn app (st, m) =
    if is_running_status st
    then (err (codes "App is already running"), m)
    else entered app.id (spawn app) (allow app.id m)

unfoldable pub start :
    {Env : Type 0} → Spawn Env → PakeApp Env → ProcessManager → Result Text ℕ × ProcessManager
start spawn app m = start_unless spawn app (status app.id m)

-- The two halves of a stop, each under its own lock. The second kills the child, if there is one,
-- and waits for its end.
unfoldable pub mark : Text → ProcessManager → ProcessManager
mark id m = record m { stopped_by_user = id ∷ m.stopped_by_user }

unfoldable pub kill_child :
    Text → Option ℕ → ProcessManager → Result Text (Unit {0}) × ProcessManager
kill_child id none m = (err (codes "App is not running"), m)
kill_child id (some pid) m =
    (ok tt, record m { processes = remove id m.processes; alive = ended pid m.alive })

unfoldable pub kill : Text → ProcessManager → Result Text (Unit {0}) × ProcessManager
kill id m = kill_child id (lookup id m.processes) m

unfoldable pub stop : Text → ProcessManager → Result Text (Unit {0}) × ProcessManager
stop id m = kill id (mark id m)

unfoldable pub restart :
    {Env : Type 0} → Spawn Env → PakeApp Env → ProcessManager → Result Text ℕ × ProcessManager
restart spawn app m = start spawn app (allow app.id (stop app.id m).1)

-- `retain`: the entries whose child runs.
unfoldable pub retained : List ℕ → List (Text × ℕ) → List (Text × ℕ)
retained alive [] = []
retained alive ((a, p) ∷ rows) =
    let rest = retained alive rows in if is_alive p alive then (a, p) ∷ rest else rest

-- The others, but for those that the user stopped.
unfoldable pub crashed_ids : List ℕ → List Text → List (Text × ℕ) → List Text
crashed_ids alive stopped_ids [] = []
crashed_ids alive stopped_ids ((a, p) ∷ rows) =
    let rest = crashed_ids alive stopped_ids rows in
    if is_alive p alive || contains a stopped_ids then rest else a ∷ rest

unfoldable pub relaunch :
    {Env : Type 0} → Spawn Env → Text → Option (PakeApp Env) → ProcessManager → ProcessManager
relaunch spawn id none m = m
relaunch spawn id (some app) m = (entered id (spawn app) m).1

unfoldable pub relaunch_all :
    {Env : Type 0}
    → Spawn Env
    → (Text → Option (PakeApp Env))
    → List Text
    → ProcessManager
    → ProcessManager
relaunch_all spawn store [] m = m
relaunch_all spawn store (id ∷ ids) m =
    relaunch_all spawn store ids (relaunch spawn id (store id) m)

unfoldable pub sweep : ProcessManager → ProcessManager
sweep m = record m { processes = retained m.alive m.processes }

-- The first half of a turn of the watchdog, under the locks: the ids to restart, and the rest.
unfoldable pub collect : ProcessManager → List Text × ProcessManager
collect m = (crashed_ids m.alive m.stopped_by_user m.processes, sweep m)

-- A turn of the watchdog that nothing else interrupts.
unfoldable pub watchdog :
    {Env : Type 0} → Spawn Env → (Text → Option (PakeApp Env)) → ProcessManager → ProcessManager
watchdog spawn store m = relaunch_all spawn store (collect m).0 (collect m).1

unfoldable pub end_all : List (Text × ℕ) → List ℕ → List ℕ
end_all [] alive = alive
end_all ((a, p) ∷ rows) alive = end_all rows (ended p alive)

unfoldable pub stop_all : ProcessManager → ProcessManager
stop_all m = record m { processes = []; alive = end_all m.processes m.alive }
