-- ===== src/Apps/Tracked.antt =====
-- src/pake_apps/process.rs: every child that runs can be stopped, after each operation.
use selkies_core.Prelude.{
  ℕ, ◌≡◌, refl, true, false, ◌||◌, List, Option, none, some, Text, ◌==◌, Result, ok, err, arith,
  Bool-cases, inl, inr, ==_iff, ap,
}
use selkies_core.Apps.Process.{
  ProcessManager, is_running_status, lookup, remove, is_alive, ended, status_of, entered,
  kill_child,
}
use selkies_core.Apps.Entries.{
  is_none, IsUnique, is_tracked, lookup-remove, remove-IsUnique, remove-absent, is_tracked-remove,
  is_alive-ended,
}

-- An id has one entry, and each child that is alive has an entry.
pub record IsTracked (m : ProcessManager) : Type 0 where
  pub unique : IsUnique m.processes
  pub kept : (q : ℕ) → is_alive q m.alive ≡ true → is_tracked q m.processes ≡ true

pub entered-IsTracked :
    (id : Text) (r : Result Text ℕ) {m : ProcessManager}
    → lookup id m.processes ≡ none
    → IsTracked m
    → IsTracked (entered id r m).1
unfolding entered is_alive is_tracked
entered-IsTracked id (err e) absent v = v
entered-IsTracked id (ok p) {m} absent v = record {
  unique = (lookup-remove id m.processes, remove-IsUnique id m.processes v.unique);
  kept = λ q h. rw (remove-absent id m.processes absent) (ground (arith, v.kept q));
}

-- An entry whose child has ended, or is killed, may go.
pub removed-IsTracked :
    (id : Text) (p : ℕ) (alive : List ℕ) {m : ProcessManager}
    → lookup id m.processes ≡ some p
    → ((q : ℕ) → is_alive q alive ≡ true → ((q == p) ≡ false) × (is_alive q m.alive ≡ true))
    → IsTracked m
    → IsTracked (record m { processes = remove id m.processes; alive = alive })
removed-IsTracked id p alive {m} at dead v = record {
  unique = remove-IsUnique id m.processes v.unique;
  kept =
      λ q h. is_tracked-remove q id p m.processes v.unique at (dead q h).0 (v.kept q (dead q h).1);
}

pub dead_other :
    (q p : ℕ) (alive : List ℕ)
    → is_alive p alive ≡ false
    → is_alive q alive ≡ true
    → ((q == p) ≡ false) × (is_alive q alive ≡ true)
dead_other q p alive dead live = elim (Bool-cases (q == p)) [
  | inl e ↦ let at : q ≡ p = (==_iff q p).0 e in absurd (cc (ap (λ t. is_alive t alive) at))
  | inr e ↦ (e, live)
]

-- Asking for a status keeps the children tracked, and unless the answer is that the application
-- runs, it has no entry afterwards.
pub status_of-IsTracked :
    (id : Text) (o : Option ℕ) {m : ProcessManager}
    → lookup id m.processes ≡ o
    → IsTracked m
    → IsTracked (status_of id o m).1
      × ((is_running_status (status_of id o m).0
            || is_none (lookup id (status_of id o m).1.processes))
          ≡ true)
unfolding status_of
status_of-IsTracked id none at v = (v, rw at refl)
status_of-IsTracked id (some p) {m} at v = elim (Bool-cases (is_alive p m.alive)) [
  | inl live ↦ rw live (v, refl)
  | inr dead ↦ rw dead (
    removed-IsTracked id p m.alive at (λ q h. dead_other q p m.alive dead h) v,
    rw (lookup-remove id m.processes) refl,
  )
]

pub kill_child-IsTracked :
    (id : Text) (o : Option ℕ) {m : ProcessManager}
    → lookup id m.processes ≡ o
    → IsTracked m
    → IsTracked (kill_child id o m).1
unfolding kill_child
kill_child-IsTracked id none at v = v
kill_child-IsTracked id (some p) {m} at v =
    removed-IsTracked id p (ended p m.alive) at (λ q h. is_alive-ended q p m.alive h) v
