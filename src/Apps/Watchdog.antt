-- ===== src/Apps/Watchdog.antt =====
-- src/pake_apps/process.rs: which applications the watchdog starts again.
use selkies_core.Prelude.{
  ℕ, ◌≡◌, refl, ◌∙◌, ap, true, false, List, [], ◌∷◌, Option, none, some, Text, same, same_iff,
  same_refl, if◌then◌else◌, Result, ok, err, arith, Bool-cases, inl, inr, All,
}
use selkies_core.Apps.{PakeApp}
use selkies_core.Apps.Process.{
  ProcessManager, lookup, remove, contains, is_alive, Spawn, status, status_of, entered, retained,
  crashed_ids, relaunch, relaunch_all, sweep, collect, watchdog,
}
use selkies_core.Apps.Tracked.{IsTracked}
use selkies_core.Apps.Entries.{
  IsReady, same_sym, lookup-remove, lookup-retained, crashed_ids-fresh, crashed_ids-IsReady,
}

lookup-remove_other :
    (id j : Text) (rows : List (Text × ℕ))
    → same id j ≡ false
    → lookup id (remove j rows) ≡ lookup id rows
unfolding lookup remove
lookup-remove_other id j [] h = refl
lookup-remove_other id j ((a, p) ∷ rows) h = elim (Bool-cases (same j a)) [
  | inl e ↦
      let at : j ≡ a = (same_iff j a).0 e in
      let other : same id a ≡ false = rw (← at) h in rw (e, other) (lookup-remove_other id j rows h)
  | inr e ↦ rw e (ap (λ o. if same id a then some p else o) (lookup-remove_other id j rows h))
]

crashed_ids-contains :
    (id : Text) (p : ℕ) (alive : List ℕ) (ids : List Text) (rows : List (Text × ℕ))
    → lookup id rows ≡ some p
    → is_alive p alive ≡ false
    → contains id ids ≡ false
    → contains id (crashed_ids alive ids rows) ≡ true
unfolding lookup crashed_ids contains
crashed_ids-contains id p alive ids [] h dead free = cc
crashed_ids-contains id p alive ids ((a, r) ∷ rows) h dead free = elim (Bool-cases (same id a)) [
  | inl e ↦
      let at : id ≡ a = (same_iff id a).0 e in
      let child : r ≡ p = ground arith in
      let free' : contains a ids ≡ false = rw (← at) free in rw (child, dead, free', e) refl
  | inr e ↦ ground (arith, crashed_ids-contains id p alive ids rows)
]

pub entered-other :
    (id c : Text) (r : Result Text ℕ) (m : ProcessManager)
    → same id c ≡ false
    → lookup id (entered c r m).1.processes ≡ lookup id m.processes
unfolding entered lookup
entered-other id c (err e) m h = refl
entered-other id c (ok p) m h = rw h (lookup-remove_other id c m.processes h)

entered_same :
    (id : Text) (q : ℕ) (m : ProcessManager) → lookup id (entered id (ok q) m).1.processes ≡ some q
unfolding entered lookup
entered_same id q m = rw (same_refl id) refl

module _ {Env : Type 0} (spawn : Spawn Env) (store : Text → Option (PakeApp Env)) (id : Text) where
  relaunch-other :
      (c : Text) (o : Option (PakeApp Env)) (m : ProcessManager)
      → same id c ≡ false
      → lookup id (relaunch spawn c o m).processes ≡ lookup id m.processes
  unfolding relaunch
  relaunch-other c none m h = refl
  relaunch-other c (some app) m h = entered-other id c (spawn app) m h

  relaunch_all-other :
      (cs : List Text) (m : ProcessManager)
      → All (λ c. same c id ≡ false) cs
      → lookup id (relaunch_all spawn store cs m).processes ≡ lookup id m.processes
  unfolding relaunch_all
  relaunch_all-other [] m h = refl
  relaunch_all-other (c ∷ cs) m h =
      relaunch_all-other cs (relaunch spawn c (store c) m) h.1
      ∙ relaunch-other c (store c) m (same_sym c id h.0)

  relaunch-lookup :
      (app : PakeApp Env) (q : ℕ) (m : ProcessManager)
      → spawn app ≡ ok q
      → lookup id (relaunch spawn id (some app) m).processes ≡ some q
  unfolding relaunch
  relaunch-lookup app q m spawned =
      ap (λ r. lookup id (entered id r m).1.processes) spawned ∙ entered_same id q m

  -- An application to restart is restarted.
  relaunch_all-lookup :
      (app : PakeApp Env) (q : ℕ) (rows : List (Text × ℕ)) (cs : List Text) (m : ProcessManager)
      → store id ≡ some app
      → spawn app ≡ ok q
      → IsReady rows cs
      → contains id cs ≡ true
      → lookup id (relaunch_all spawn store cs m).processes ≡ some q
  unfolding relaunch_all contains
  relaunch_all-lookup app q rows [] m known spawned r h = cc
  relaunch_all-lookup app q rows (c ∷ cs) m known spawned r h = elim (Bool-cases (same id c)) [
    | inl e ↦
        let at : id ≡ c = (same_iff id c).0 e in
        let distinct : All (λ d. same d id ≡ false) cs = rw at r.1 in
        relaunch_all-other cs (relaunch spawn c (store c) m) distinct
        ∙ rw (← at) (rw known (relaunch-lookup app q m spawned))
    | inr e ↦
        relaunch_all-lookup app q rows cs (relaunch spawn c (store c) m) known spawned r.2
          (ground arith)
  ]

  -- Take a turn of the watchdog that nothing interrupts. An application whose child has ended, that
  -- the user did not stop, that the store has and whose command can be spawned, is started again by
  -- it; but if its status is asked for before the turn, the entry is gone and the watchdog does not
  -- start it.
  pub watchdog-lookup :
      (app : PakeApp Env) (p q : ℕ) (m : ProcessManager)
      → IsTracked m
      → lookup id m.processes ≡ some p
      → is_alive p m.alive ≡ false
      → contains id m.stopped_by_user ≡ false
      → store id ≡ some app
      → spawn app ≡ ok q
      → (lookup id (watchdog spawn store m).processes ≡ some q)
        × (lookup id (watchdog spawn store (status id m).1).processes ≡ none)
  unfolding watchdog collect status status_of sweep
  watchdog-lookup app p q m v at dead free known spawned = (
    relaunch_all-lookup app q (retained m.alive m.processes)
        (crashed_ids m.alive m.stopped_by_user m.processes) (sweep m) known spawned
        (crashed_ids-IsReady m.alive m.stopped_by_user m.processes v.unique)
        (crashed_ids-contains id p m.alive m.stopped_by_user m.processes at dead free),
    rw (at, dead)
        (let gone = lookup-remove id m.processes in
          relaunch_all-other (crashed_ids m.alive m.stopped_by_user (remove id m.processes)) _
            (crashed_ids-fresh id m.alive m.stopped_by_user (remove id m.processes) gone)
          ∙ lookup-retained id m.alive (remove id m.processes) gone),
  )
