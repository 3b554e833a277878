-- ===== src/Apps/Turns.antt =====
-- src/pake_apps/process.rs: the same after any run of the steps of requests and of the watchdog.
use selkies_core.Prelude.{
  ℕ, ◌≡◌, refl, true, false, ◌||◌, List, [], ◌∷◌, ◌++◌, Option, none, some, Text, same, same_iff,
  Result, ok, err, All, All-append, arith, Bool-cases, inl, inr, if-intro,
}
use selkies_core.Apps.{PakeApp}
use selkies_core.Apps.Process.{
  ProcessManager, AppStatus, is_running_status, lookup, remove, contains, is_alive, ended, Spawn,
  status, status_of, entered, crashed_ids, retained, relaunch, sweep, collect, end_all, stop_all,
  kill, kill_child, mark, allow, new,
}
use selkies_core.Apps.Steps.{
  System, at_rest, checked, drop_one, launched, Step, checks, allows, marks, kills, asks, launches,
  exits, collects, stops_all, step, run,
}
use selkies_core.Apps.Entries.{
  is_none, is_none-eq, same_sym, lookup-remove-none, IsUnique, crashed_ids-fresh, is_tracked,
  remove-absent, is_alive-ended, IsReady, cons-IsReady, lookup-retained, retained-IsUnique,
  is_tracked-retained, crashed_ids-IsReady,
}
use selkies_core.Apps.Tracked.{
  IsTracked, entered-IsTracked, status_of-IsTracked, kill_child-IsTracked,
}

-- The children are tracked, and what is being launched has no entry and is launched once.
pub record IsOrderly (s : System) : Type 0 where
  pub tracked : IsTracked s.manager
  pub ready : IsReady s.manager.processes s.launching

remove-IsReady :
    (id : Text) (rows : List (Text × ℕ)) (cs : List Text)
    → IsReady rows cs
    → IsReady (remove id rows) cs
remove-IsReady id rows [] r = tt
remove-IsReady id rows (c ∷ cs) r =
    (lookup-remove-none c id rows r.0, r.1, remove-IsReady id rows cs r.2)

retained-IsReady :
    (alive : List ℕ) (rows : List (Text × ℕ)) (cs : List Text)
    → IsReady rows cs
    → IsReady (retained alive rows) cs
retained-IsReady alive rows [] r = tt
retained-IsReady alive rows (c ∷ cs) r =
    (lookup-retained c alive rows r.0, r.1, retained-IsReady alive rows cs r.2)

status_of-IsReady :
    (id : Text) (o : Option ℕ) (m : ProcessManager) (cs : List Text)
    → IsReady m.processes cs
    → IsReady (status_of id o m).1.processes cs
unfolding status_of
status_of-IsReady id none m cs r = r
status_of-IsReady id (some p) m cs r =
    if-intro {A = AppStatus × ProcessManager} (λ a. IsReady a.1.processes cs) (is_alive p m.alive)
      (λ e. r) (λ e. remove-IsReady id m.processes cs r)

kill_child-IsReady :
    (id : Text) (o : Option ℕ) (m : ProcessManager) (cs : List Text)
    → IsReady m.processes cs
    → IsReady (kill_child id o m).1.processes cs
unfolding kill_child
kill_child-IsReady id none m cs r = r
kill_child-IsReady id (some p) m cs r = remove-IsReady id m.processes cs r

-- No id of the list is the one that is not in it.
contains-fresh :
    (id : Text) (cs : List Text) → contains id cs ≡ false → All (λ d. same d id ≡ false) cs
unfolding contains
contains-fresh id [] h = tt
contains-fresh id (c ∷ cs) h = (same_sym id c (ground arith), contains-fresh id cs (ground arith))

checked-IsOrderly :
    (id : Text) (st : AppStatus) (m : ProcessManager) (s : System)
    → contains id s.launching ≡ false
    → (is_running_status st || is_none (lookup id m.processes)) ≡ true
    → IsTracked m
    → IsReady m.processes s.launching
    → IsOrderly (checked id (st, m) s)
unfolding checked
checked-IsOrderly id AppStatus.running m s free h v r = record { tracked = v; ready = r }
checked-IsOrderly id AppStatus.stopped m s free h v r = record {
  tracked = v;
  ready = (is_none-eq _ h, contains-fresh id s.launching free, r);
}
checked-IsOrderly id AppStatus.crashed m s free h v r = record {
  tracked = v;
  ready = (is_none-eq _ h, contains-fresh id s.launching free, r);
}

contains-lookup :
    (id : Text) (rows : List (Text × ℕ)) (cs : List Text)
    → contains id cs ≡ true
    → IsReady rows cs
    → lookup id rows ≡ none
unfolding contains
contains-lookup id rows [] h r = cc
contains-lookup id rows (c ∷ cs) h r = elim (Bool-cases (same id c)) [
  | inl e ↦ let at : id ≡ c = (same_iff id c).0 e in rw at r.0
  | inr e ↦ contains-lookup id rows cs (ground arith) r.2
]

drop_one-All {ℓ} :
    (P : Text → Type ℓ) (id : Text) (cs : List Text) → All P cs → All P (drop_one id cs)
unfolding drop_one
drop_one-All P id [] h = tt
drop_one-All P id (c ∷ cs) h =
    if-intro (All P) (same id c) (λ e. h.1) (λ e. (h.0, drop_one-All P id cs h.1))

-- The launch that is done leaves the others.
drop_one-IsReady :
    (id : Text) (rows : List (Text × ℕ)) (cs : List Text)
    → IsReady rows cs
    → IsReady rows (drop_one id cs) × All (λ d. same d id ≡ false) (drop_one id cs)
unfolding drop_one
drop_one-IsReady id rows [] r = (tt, tt)
drop_one-IsReady id rows (c ∷ cs) r = elim (Bool-cases (same id c)) [
  | inl e ↦ let at : id ≡ c = (same_iff id c).0 e in rw e (r.2, rw at r.1)
  | inr e ↦
      let (rest, other) = drop_one-IsReady id rows cs r.2 in
      rw e ((r.0, drop_one-All _ id cs r.1, rest), (same_sym id c e, other))
]

entered-IsReady :
    (id : Text) (r : Result Text ℕ) (m : ProcessManager) (cs : List Text)
    → lookup id m.processes ≡ none
    → IsReady m.processes cs
    → All (λ d. same d id ≡ false) cs
    → IsReady (entered id r m).1.processes cs
unfolding entered
entered-IsReady id (err e) m cs absent r other = r
entered-IsReady id (ok p) m cs absent r other =
    rw (remove-absent id m.processes absent) (cons-IsReady id p m.processes cs other r)

relaunch-IsOrderly :
    {Env : Type 0} (spawn : Spawn Env) (id : Text) (o : Option (PakeApp Env)) (m : ProcessManager)
    (cs : List Text)
    → lookup id m.processes ≡ none
    → IsTracked m
    → IsReady m.processes cs
    → All (λ d. same d id ≡ false) cs
    → IsOrderly (record { manager = relaunch spawn id o m; launching = cs })
unfolding relaunch
relaunch-IsOrderly spawn id none m cs absent v r other = record { tracked = v; ready = r }
relaunch-IsOrderly spawn id (some app) m cs absent v r other = record {
  tracked = entered-IsTracked id (spawn app) absent v;
  ready = entered-IsReady id (spawn app) m cs absent r other;
}

launched-IsOrderly :
    {Env : Type 0} (spawn : Spawn Env) (id : Text) (o : Option (PakeApp Env)) (s : System)
    → IsOrderly s
    → IsOrderly (launched spawn id o s)
unfolding launched
launched-IsOrderly spawn id o s v =
    if-intro IsOrderly (contains id s.launching)
      (λ e.
        let (rest, other) = drop_one-IsReady id s.manager.processes s.launching v.ready in
        relaunch-IsOrderly spawn id o s.manager (drop_one id s.launching)
          (contains-lookup id s.manager.processes s.launching e v.ready) v.tracked rest other)
      (λ e. v)

append-IsReady :
    (rows : List (Text × ℕ)) (cs ds : List Text)
    → IsReady rows cs
    → IsReady rows ds
    → All (λ c. All (λ d. same d c ≡ false) ds) cs
    → IsReady rows (cs ++ ds)
append-IsReady rows [] ds r q h = q
append-IsReady rows (c ∷ cs) ds r q h =
    (r.0, All-append (λ d. same d c ≡ false) cs ds r.1 h.0, append-IsReady rows cs ds r.2 q h.1)

is_alive-end_all :
    (q : ℕ) (rows : List (Text × ℕ)) (alive : List ℕ)
    → is_alive q (end_all rows alive) ≡ true
    → (is_tracked q rows ≡ false) × (is_alive q alive ≡ true)
unfolding end_all is_tracked
is_alive-end_all q [] alive h = (refl, h)
is_alive-end_all q ((a, p) ∷ rows) alive h =
    let (untracked, live) = is_alive-end_all q rows (ended p alive) h in
    let (other, live') = is_alive-ended q p alive live in (rw other untracked, live')

none-IsReady : (rows : List (Text × ℕ)) (cs : List Text) → IsReady rows cs → IsReady [] cs
unfolding lookup
none-IsReady rows [] r = tt
none-IsReady rows (c ∷ cs) r = (refl, r.1, none-IsReady rows cs r.2)

stop_all-IsTracked : {m : ProcessManager} → IsTracked m → IsTracked (stop_all m)
unfolding stop_all
stop_all-IsTracked {m} v = record {
  unique = tt;
  kept = λ q h.
      let (untracked, live) = is_alive-end_all q m.processes m.alive h in
      absurd (cc (v.kept q live, untracked));
}

stop_all-IsReady :
    (m : ProcessManager) (cs : List Text)
    → IsReady m.processes cs
    → IsReady (stop_all m).processes cs
unfolding stop_all
stop_all-IsReady m cs r = none-IsReady m.processes cs r

exit-IsTracked :
    (p : ℕ) {m : ProcessManager} → IsTracked m → IsTracked (record m { alive = ended p m.alive })
exit-IsTracked p {m} v = record {
  unique = v.unique;
  kept = λ q h. v.kept q (is_alive-ended q p m.alive h).1;
}

-- What is collected is ready to launch, beside what is being launched already.
fresh_all :
    (alive : List ℕ) (ids : List Text) (rows : List (Text × ℕ)) (cs : List Text)
    → IsReady rows cs
    → All (λ c. All (λ d. same d c ≡ false) (crashed_ids alive ids rows)) cs
fresh_all alive ids rows [] r = tt
fresh_all alive ids rows (c ∷ cs) r =
    (crashed_ids-fresh c alive ids rows r.0, fresh_all alive ids rows cs r.2)

sweep-IsTracked : {m : ProcessManager} → IsTracked m → IsTracked (sweep m)
unfolding sweep
sweep-IsTracked {m} v = record {
  unique = retained-IsUnique m.alive m.processes v.unique;
  kept = λ q h. is_tracked-retained q m.alive m.processes h (v.kept q h);
}

collect-IsReady :
    (m : ProcessManager) (cs : List Text)
    → IsUnique m.processes
    → IsReady m.processes cs
    → IsReady (collect m).1.processes (cs ++ (collect m).0)
unfolding collect sweep
collect-IsReady m cs u r =
    append-IsReady (retained m.alive m.processes) cs
      (crashed_ids m.alive m.stopped_by_user m.processes)
      (retained-IsReady m.alive m.processes cs r)
      (crashed_ids-IsReady m.alive m.stopped_by_user m.processes u)
      (fresh_all m.alive m.stopped_by_user m.processes cs r)

-- A start is not checked while a launch of the same application is under way.
abbrev pub IsApart : {Env : Type 0} → Step Env → System → Type 0
IsApart (checks id) s = contains id s.launching ≡ false
IsApart _ s = Unit

abbrev pub AreApart : {Env : Type 0} → List (Step Env) → System → Type 0
AreApart [] s = Unit
AreApart (x ∷ steps) s = IsApart x s × AreApart steps (step x s)

step-IsOrderly :
    {Env : Type 0} (x : Step Env) (s : System) → IsApart x s → IsOrderly s → IsOrderly (step x s)
unfolding step status kill allow mark collect
step-IsOrderly (checks id) s free v =
    let (v', h) = status_of-IsTracked id (lookup id s.manager.processes) refl v.tracked in
    checked-IsOrderly id _ _ s free h v'
      (status_of-IsReady id (lookup id s.manager.processes) s.manager s.launching v.ready)
step-IsOrderly (allows id) s free v = record {
  tracked = record { unique = v.tracked.unique; kept = v.tracked.kept };
  ready = v.ready;
}
step-IsOrderly (marks id) s free v = record {
  tracked = record { unique = v.tracked.unique; kept = v.tracked.kept };
  ready = v.ready;
}
step-IsOrderly (kills id) s free v = record {
  tracked = kill_child-IsTracked id (lookup id s.manager.processes) refl v.tracked;
  ready = kill_child-IsReady id (lookup id s.manager.processes) s.manager s.launching v.ready;
}
step-IsOrderly (asks id) s free v = record {
  tracked = (status_of-IsTracked id (lookup id s.manager.processes) refl v.tracked).0;
  ready = status_of-IsReady id (lookup id s.manager.processes) s.manager s.launching v.ready;
}
step-IsOrderly (launches spawn id o) s free v = launched-IsOrderly spawn id o s v
step-IsOrderly (exits p) s free v = record { tracked = exit-IsTracked p v.tracked; ready = v.ready }
step-IsOrderly collects s free v = record {
  tracked = sweep-IsTracked v.tracked;
  ready = collect-IsReady s.manager s.launching v.tracked.unique v.ready;
}
step-IsOrderly stops_all s free v = record {
  tracked = stop_all-IsTracked v.tracked;
  ready = stop_all-IsReady s.manager s.launching v.ready;
}

run-IsOrderly :
    {Env : Type 0} (steps : List (Step Env)) (s : System)
    → AreApart steps s
    → IsOrderly s
    → IsOrderly (run steps s)
unfolding run
run-IsOrderly [] s apart v = v
run-IsOrderly (x ∷ steps) s apart v =
    run-IsOrderly steps (step x s) apart.1 (step-IsOrderly x s apart.0 v)

at_rest-IsOrderly : IsOrderly at_rest
unfolding new is_alive
at_rest-IsOrderly = record { tracked = record { unique = tt; kept = λ q h. cc }; ready = tt }

-- Requests and the watchdog run side by side, their steps in any order, and children end at any
-- time. As long as no start is checked while a launch of the same application is under way, by
-- another start or by the watchdog, an application has at most one entry and each child that runs
-- has an entry by which it can be stopped.
pub run-IsTracked :
    {Env : Type 0} (steps : List (Step Env))
    → AreApart steps at_rest
    → IsTracked (run steps at_rest).manager
run-IsTracked steps apart = (run-IsOrderly steps at_rest apart at_rest-IsOrderly).tracked
