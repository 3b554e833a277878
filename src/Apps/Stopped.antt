-- ===== src/Apps/Stopped.antt =====
-- src/pake_apps/process.rs: what the user stops stays stopped.
use selkies_core.Prelude.{
  ℕ, ◌≡◌, refl, true, false, ◌||◌, List, [], ◌∷◌, ◌++◌, Option, none, some, Text, same, same_iff,
  same_refl, Result, ok, err, arith, Bool-cases, inl, inr, All, ◌∙◌, if-intro,
}
use selkies_core.Apps.{PakeApp}
use selkies_core.Apps.Process.{
  ProcessManager, AppStatus, lookup, contains, erase, is_alive, Spawn, status_of, status, entered,
  allow, mark, kill, kill_child, crashed_ids, relaunch, sweep, collect, stop_all,
}
use selkies_core.Apps.Steps.{
  System, checked, drop_one, launched, Step, checks, allows, marks, kills, asks, launches, exits,
  collects, stops_all, step, run,
}
use selkies_core.Apps.Entries.{lookup-remove, lookup-remove-none, lookup-retained}
use selkies_core.Apps.Watchdog.{entered-other}

-- The step is no part of a start of the application.
abbrev pub Spares : {Env : Type 0} → Text → Step Env → Type 0
Spares id (checks j) = same id j ≡ false
Spares id (allows j) = same id j ≡ false
Spares id _ = Unit

contains-erase_other :
    (id j : Text) (ids : List Text)
    → same id j ≡ false
    → contains id ids ≡ true
    → contains id (erase j ids) ≡ true
unfolding contains erase
contains-erase_other id j [] other h = h
contains-erase_other id j (a ∷ ids) other h = elim (Bool-cases (same j a)) [
  | inl e ↦
      let at : j ≡ a = (same_iff j a).0 e in
      let not_a : same id a ≡ false = rw (← at) other in
      rw e (contains-erase_other id j ids other (rw not_a at h))
  | inr e ↦ rw e (ground (arith, contains-erase_other id j ids other))
]

status_of-stopped :
    (id : Text) (o : Option ℕ) (m : ProcessManager)
    → (status_of id o m).1.stopped_by_user ≡ m.stopped_by_user
unfolding status_of
status_of-stopped id none m = refl
status_of-stopped id (some p) m = ground arith

entered-stopped :
    (id : Text) (r : Result Text ℕ) (m : ProcessManager)
    → (entered id r m).1.stopped_by_user ≡ m.stopped_by_user
unfolding entered
entered-stopped id (err e) m = refl
entered-stopped id (ok p) m = refl

relaunch-stopped :
    {Env : Type 0} (spawn : Spawn Env) (c : Text) (o : Option (PakeApp Env)) (m : ProcessManager)
    → (relaunch spawn c o m).stopped_by_user ≡ m.stopped_by_user
unfolding relaunch
relaunch-stopped spawn c none m = refl
relaunch-stopped spawn c (some app) m = entered-stopped c (spawn app) m

kill_child-stopped :
    (id : Text) (o : Option ℕ) (m : ProcessManager)
    → (kill_child id o m).1.stopped_by_user ≡ m.stopped_by_user
unfolding kill_child
kill_child-stopped id none m = refl
kill_child-stopped id (some p) m = refl

crashed_ids-stopped :
    (id : Text) (alive : List ℕ) (ids : List Text) (rows : List (Text × ℕ))
    → contains id ids ≡ true
    → contains id (crashed_ids alive ids rows) ≡ false
unfolding crashed_ids contains
crashed_ids-stopped id alive ids [] h = refl
crashed_ids-stopped id alive ids ((a, p) ∷ rows) h = elim (Bool-cases (same id a)) [
  | inl e ↦
      let at : id ≡ a = (same_iff id a).0 e in
      let marked : contains a ids ≡ true = rw (← at) h in
      ground (arith, crashed_ids-stopped id alive ids rows h)
  | inr e ↦ ground (arith, crashed_ids-stopped id alive ids rows h)
]

contains-append :
    (id : Text) (xs ys : List Text) → contains id (xs ++ ys) ≡ (contains id xs || contains id ys)
unfolding contains
contains-append id [] ys = refl
contains-append id (x ∷ xs) ys = ground (arith, contains-append id xs ys)

contains-drop_one :
    (id j : Text) (cs : List Text) → contains id cs ≡ false → contains id (drop_one j cs) ≡ false
unfolding contains drop_one
contains-drop_one id j [] h = h
contains-drop_one id j (c ∷ cs) h = ground (arith, contains-drop_one id j cs)

-- The user has stopped the application, and no launch of it is under way.
abbrev IsQuiet : Text → System → Type 0
IsQuiet id s = (contains id s.manager.stopped_by_user ≡ true) × (contains id s.launching ≡ false)

checked-IsQuiet :
    (id j : Text) (st : AppStatus) (m : ProcessManager) (s : System)
    → same id j ≡ false
    → m.stopped_by_user ≡ s.manager.stopped_by_user
    → IsQuiet id s
    → IsQuiet id (checked j (st, m) s)
unfolding checked contains
checked-IsQuiet id j AppStatus.running m s other e q = (rw e q.0, q.1)
checked-IsQuiet id j AppStatus.stopped m s other e q = (rw e q.0, rw other q.1)
checked-IsQuiet id j AppStatus.crashed m s other e q = (rw e q.0, rw other q.1)

launched-IsQuiet :
    {Env : Type 0} (id : Text) (spawn : Spawn Env) (j : Text) (o : Option (PakeApp Env))
    (s : System)
    → IsQuiet id s
    → IsQuiet id (launched spawn j o s)
unfolding launched
launched-IsQuiet id spawn j o s q =
    if-intro (IsQuiet id) (contains j s.launching)
      (λ e. (rw (relaunch-stopped spawn j o s.manager) q.0, contains-drop_one id j s.launching q.1))
      (λ e. q)

step-IsQuiet :
    {Env : Type 0} (id : Text) (x : Step Env) (s : System)
    → Spares id x
    → IsQuiet id s
    → IsQuiet id (step x s)
unfolding step status kill collect sweep stop_all allow mark contains
step-IsQuiet id (checks j) s other q =
    checked-IsQuiet id j _ _ s other (status_of-stopped j (lookup j s.manager.processes) s.manager)
      q
step-IsQuiet id (allows j) s other q =
    (contains-erase_other id j s.manager.stopped_by_user other q.0, q.1)
step-IsQuiet id (marks j) s other q = (ground (arith, q.0), q.1)
step-IsQuiet id (kills j) s other q =
    (rw (kill_child-stopped j (lookup j s.manager.processes) s.manager) q.0, q.1)
step-IsQuiet id (asks j) s other q =
    (rw (status_of-stopped j (lookup j s.manager.processes) s.manager) q.0, q.1)
step-IsQuiet id (launches spawn j o) s other q = launched-IsQuiet id spawn j o s q
step-IsQuiet id (exits p) s other q = q
step-IsQuiet id collects s other q = (
  q.0,
  rw
      (
        contains-append id s.launching
            (crashed_ids s.manager.alive s.manager.stopped_by_user s.manager.processes),
        q.1,
        crashed_ids-stopped id s.manager.alive s.manager.stopped_by_user s.manager.processes q.0,
      )
      refl,
)
step-IsQuiet id stops_all s other q = q

-- And it has no entry.
abbrev IsGone : Text → System → Type 0
IsGone id s = IsQuiet id s × (lookup id s.manager.processes ≡ none)

status_of-none :
    (id j : Text) (o : Option ℕ) (m : ProcessManager)
    → lookup id m.processes ≡ none
    → lookup id (status_of j o m).1.processes ≡ none
unfolding status_of
status_of-none id j none m h = h
status_of-none id j (some p) m h =
    if-intro {A = AppStatus × ProcessManager} (λ a. lookup id a.1.processes ≡ none)
      (is_alive p m.alive) (λ e. h) (λ e. lookup-remove-none id j m.processes h)

kill_child-none :
    (id j : Text) (o : Option ℕ) (m : ProcessManager)
    → lookup id m.processes ≡ none
    → lookup id (kill_child j o m).1.processes ≡ none
unfolding kill_child
kill_child-none id j none m h = h
kill_child-none id j (some p) m h = lookup-remove-none id j m.processes h

relaunch-none :
    {Env : Type 0} (id j : Text) (spawn : Spawn Env) (o : Option (PakeApp Env)) (m : ProcessManager)
    → same id j ≡ false
    → lookup id m.processes ≡ none
    → lookup id (relaunch spawn j o m).processes ≡ none
unfolding relaunch
relaunch-none id j spawn none m other h = h
relaunch-none id j spawn (some app) m other h = entered-other id j (spawn app) m other ∙ h

launched-none :
    {Env : Type 0} (id : Text) (spawn : Spawn Env) (j : Text) (o : Option (PakeApp Env))
    (s : System)
    → contains id s.launching ≡ false
    → lookup id s.manager.processes ≡ none
    → lookup id (launched spawn j o s).manager.processes ≡ none
unfolding launched
launched-none id spawn j o s quiet h =
    if-intro {A = System} (λ t. lookup id t.manager.processes ≡ none) (contains j s.launching)
      (λ e. relaunch-none id j spawn o s.manager (apart e) h) (λ e. h)
  where
    apart : contains j s.launching ≡ true → same id j ≡ false
    apart e = elim (Bool-cases (same id j)) [
      | inl eq ↦
          let at : id ≡ j = (same_iff id j).0 eq in
          let there : contains id s.launching ≡ true = rw at e in cc
      | inr eq ↦ eq
    ]

step-none :
    {Env : Type 0} (id : Text) (x : Step Env) (s : System)
    → contains id s.launching ≡ false
    → lookup id s.manager.processes ≡ none
    → lookup id (step x s).manager.processes ≡ none
unfolding step status kill collect sweep stop_all allow mark checked lookup
step-none id (checks j) s quiet h = status_of-none id j (lookup j s.manager.processes) s.manager h
step-none id (allows j) s quiet h = h
step-none id (marks j) s quiet h = h
step-none id (kills j) s quiet h = kill_child-none id j (lookup j s.manager.processes) s.manager h
step-none id (asks j) s quiet h = status_of-none id j (lookup j s.manager.processes) s.manager h
step-none id (launches spawn j o) s quiet h = launched-none id spawn j o s quiet h
step-none id (exits p) s quiet h = h
step-none id collects s quiet h = lookup-retained id s.manager.alive s.manager.processes h
step-none id stops_all s quiet h = refl

run-IsQuiet :
    {Env : Type 0} (id : Text) (steps : List (Step Env)) (s : System)
    → All (Spares id) steps
    → IsQuiet id s
    → IsQuiet id (run steps s)
unfolding run
run-IsQuiet id [] s others q = q
run-IsQuiet id (x ∷ steps) s others q =
    run-IsQuiet id steps (step x s) others.1 (step-IsQuiet id x s others.0 q)

run-none :
    {Env : Type 0} (id : Text) (steps : List (Step Env)) (s : System)
    → All (Spares id) steps
    → IsQuiet id s
    → lookup id s.manager.processes ≡ none
    → lookup id (run steps s).manager.processes ≡ none
unfolding run
run-none id [] s others q h = h
run-none id (x ∷ steps) s others q h =
    run-none id steps (step x s) others.1 (step-IsQuiet id x s others.0 q) (step-none id x s q.1 h)

killed-none :
    (id : Text) (o : Option ℕ) (m : ProcessManager)
    → lookup id m.processes ≡ o
    → lookup id (kill_child id o m).1.processes ≡ none
unfolding kill_child
killed-none id none m e = e
killed-none id (some p) m e = lookup-remove id m.processes

marked-IsQuiet :
    (Env : Type 0) (id : Text) (s : System)
    → contains id s.launching ≡ false
    → IsQuiet id (step {Env = Env} (marks id) s)
unfolding step mark contains
marked-IsQuiet Env id s quiet = (rw (same_refl id) refl, quiet)

killed_lem :
    (Env : Type 0) (id : Text) (s : System)
    → lookup id (step {Env = Env} (kills id) s).manager.processes ≡ none
unfolding step kill
killed_lem Env id s = killed-none id (lookup id s.manager.processes) s.manager refl

after_kill :
    {Env : Type 0} (id : Text) (steps : List (Step Env)) (s : System)
    → All (Spares id) steps
    → IsQuiet id s
    → lookup id (run steps (step {Env = Env} (kills id) s)).manager.processes ≡ none
after_kill {Env} id steps s others q =
    run-none id steps (step {Env = Env} (kills id) s) others
      (step-IsQuiet {Env = Env} id (kills id) s tt q) (killed_lem Env id s)

run-append :
    {Env : Type 0} (xs ys : List (Step Env)) (s : System) → run (xs ++ ys) s ≡ run ys (run xs s)
unfolding run
run-append [] ys s = refl
run-append (x ∷ xs) ys s = run-append xs ys (step x s)

-- A stop marks the application and then kills its child; let anything happen between the two and
-- afterwards, in the steps of requests and of the watchdog, but no start of that application. If no
-- launch of it was under way when it was marked, it has no entry at the end: the watchdog does not
-- bring it back.
pub run-stop :
    {Env : Type 0} (id : Text) (between after : List (Step Env)) (s : System)
    → contains id s.launching ≡ false
    → All (Spares id) between
    → All (Spares id) after
    → lookup id (run (marks id ∷ (between ++ kills id ∷ after)) s).manager.processes ≡ none
unfolding run
run-stop {Env} id between after s quiet others later =
    rw (run-append between (kills id ∷ after) (step {Env = Env} (marks id) s)) (
      after_kill id after (run between (step {Env = Env} (marks id) s)) later (
        run-IsQuiet id between (step {Env = Env} (marks id) s) others
          (marked-IsQuiet Env id s quiet)))
