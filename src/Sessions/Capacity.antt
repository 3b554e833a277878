-- ===== src/Sessions/Capacity.antt =====
-- src/webrtc/session.rs: what the limit on sessions bounds, and what the counter misses.
use selkies_core.Prelude.{
  ℕ, zero, suc, ◌+◌, ◌≡◌, refl, ap, ◌∙◌, Bool, true, false, List, [], ◌∷◌, some, Text, length, leb,
  same_refl, arith, if-false, Result, ok,
}
use selkies_core.Sessions.{
  SessionError, end_session, remove_driving, SessionManager, Connection, new,
  create_session_with_offer, insert_entry, remove_entry, find_accepting, start_session,
  handle_ice_tcp_connection, increment_webrtc_sessions, Step, step, run,
}

-- A connection whose packet the first session accepts; `fed` says whether str0m takes it.
abbrev pub connection : Bool → Connection
connection fed = record {
  frames = some ((0 ∷ []) ∷ []);
  accepts = λ p. true;
  fed = fed;
  drained = true;
}

-- A client that offers and connects, `n` times, under one id or several.
abbrev pub rounds : ℕ → Text → List Step
rounds zero id = []
rounds (suc n) id = Step.offer id [] 0 (some []) ∷ Step.connect (connection true) ∷ rounds n id

-- No session waits, and those of `ds` run.
abbrev pub busy : ℕ → ℕ → List Text → SessionManager
busy limit count ds = record {
  max_sessions = limit;
  pending = [];
  webrtc_sessions = count;
  driving = ds;
}

-- One session waits.
abbrev waiting : ℕ → ℕ → Text → List Text → SessionManager
waiting limit count id ds = record {
  max_sessions = limit;
  pending = record { id = id; candidate_addr = []; created_at = 0 } ∷ [];
  webrtc_sessions = count;
  driving = ds;
}

offered :
    (limit count : ℕ) (id : Text) (ds : List Text)
    → step (Step.offer id [] 0 (some [])) (busy (suc limit) count ds)
      ≡ waiting (suc limit) (count + 1) id ds
unfolding step create_session_with_offer insert_entry remove_entry increment_webrtc_sessions
offered limit count id ds =
    let room : leb (suc limit) 0 ≡ false = ground arith in
    let made : create_session_with_offer id [] 0 (some []) (busy (suc limit) count ds)
        ≡ (ok (id, []), waiting (suc limit) (count + 1) id ds) =
      if-false (leb (suc limit) 0) _ _ room in
    ap (λ (r : Result SessionError (Text × Text) × SessionManager). r.1) made

connected :
    (limit count : ℕ) (id : Text) (ds : List Text)
    → (step (Step.connect (connection true)) (waiting limit count id ds)
        ≡ busy limit count (id ∷ ds))
      × (step (Step.connect (connection false)) (waiting limit count id ds) ≡ busy limit count ds)
unfolding step handle_ice_tcp_connection find_accepting start_session remove_entry
connected limit count id ds = (rw (same_refl id) refl, rw (same_refl id) refl)

ended_early :
    (limit count : ℕ) (id : Text)
    → step (Step.ended id false) (busy limit count (id ∷ [])) ≡ busy limit count []
unfolding step end_session remove_driving
ended_early limit count id = rw (end_session, remove_driving, same_refl id) refl

round_lem :
    (limit count : ℕ) (id : Text) (ds : List Text)
    → step
        (Step.connect (connection true))
        (step (Step.offer id [] 0 (some [])) (busy (suc limit) count ds))
      ≡ busy (suc limit) (count + 1) (id ∷ ds)
round_lem limit count id ds =
    ap (step (Step.connect (connection true))) (offered limit count id ds)
    ∙ (connected (suc limit) (count + 1) id ds).0

rounds_lem :
    (n limit count : ℕ) (id : Text) (ds : List Text)
    → length (run (rounds n id) (busy (suc limit) count ds)).driving ≡ n + length ds
unfolding run
rounds_lem zero limit count id ds = omega arith
rounds_lem (suc n) limit count id ds =
    ap (λ (s : SessionManager). length (run (rounds n id) s).driving) (round_lem limit count id ds)
    ∙ rounds_lem n limit (count + 1) id (id ∷ ds)
    ∙ omega arith

-- The limit, as long as it is not 0, does not bound the sessions that run: a client that offers and
-- connects `n` times has `n` drive loops running, for every `n`.
pub run-rounds :
    (n limit : ℕ) (id : Text) → length (run (rounds n id) (new (suc limit))).driving ≡ n
unfolding new
run-rounds n limit id = rounds_lem n limit 0 id [] ∙ omega arith

-- A session whose first packets str0m refuses, or whose first drain fails after its drive loop has
-- begun, is gone from the manager and stays in the counter: after the offer, the connection and the
-- end, no session waits or runs, and the counter has gone up by one.
pub run-lost :
    (limit count : ℕ) (id : Text)
    → (run
          (Step.offer id [] 0 (some []) ∷ Step.connect (connection false) ∷ [])
          (busy (suc limit) count [])
        ≡ busy (suc limit) (count + 1) [])
      × (run
            (Step.offer id [] 0 (some [])
              ∷ Step.connect (connection true)
              ∷ Step.ended id false
              ∷ [])
            (busy (suc limit) count [])
          ≡ busy (suc limit) (count + 1) [])
unfolding run
run-lost limit count id = (
  ap (step (Step.connect (connection false))) (offered limit count id [])
      ∙ (connected (suc limit) (count + 1) id []).1,
  ap (step (Step.ended id false)) (round_lem limit count id [])
      ∙ ended_early (suc limit) (count + 1) id,
)
