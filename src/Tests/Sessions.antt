-- ===== src/Tests/Sessions.antt =====
-- The session manager on short runs.
use selkies_core.Prelude.{suc, ◌+◌, ◌≡◌, List, [], ◌∷◌, some, false, true, codes, length}
use selkies_core.Sessions.{Step, new, run}
use selkies_core.Sessions.Count.{Inv, new-Inv, run-Inv}
use selkies_core.Sessions.Capacity.{connection, rounds, busy, run-rounds, run-lost}

abbrev steps : List Step
steps =
    Step.offer (codes "a") (codes "1.2.3.4:8008") 0 (some (codes "v=0"))
    ∷ Step.offer (codes "b") (codes "1.2.3.4:8008") 5 (some (codes "v=0"))
    ∷ Step.connect (connection true)
    ∷ Step.tick 40
    ∷ Step.ended (codes "b") true
    ∷ []

run-Inv_example : Inv 2 (run steps (new 2))
run-Inv_example = run-Inv 2 steps (new 2) (new-Inv 2)

run-rounds_example : length (run (rounds 3 (codes "a")) (new (suc 0))).driving ≡ 3
run-rounds_example = run-rounds 3 0 (codes "a")

run-lost_example :
    (run
        (Step.offer (codes "a") [] 0 (some []) ∷ Step.connect (connection false) ∷ [])
        (busy (suc 0) 4 [])
      ≡ busy (suc 0) (4 + 1) [])
    × (run
          (Step.offer (codes "a") [] 0 (some [])
            ∷ Step.connect (connection true)
            ∷ Step.ended (codes "a") false
            ∷ [])
          (busy (suc 0) 4 [])
        ≡ busy (suc 0) (4 + 1) [])
run-lost_example = run-lost 0 4 (codes "a")
