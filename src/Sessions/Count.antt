-- ===== src/Sessions/Count.antt =====
-- src/webrtc/session.rs and src/web/shared.rs: the count of sessions, over every run.
use selkies_core.Prelude.{
  ℕ, ◌+◌, ◌-◌, ◌≤◌, ◌≡◌, refl, ap, ◌∙◌, Bool, true, false, not, List, [], ◌∷◌, Option, none, some,
  OnSome, is_some, same_refl, Text, length, is_empty, same, ltb, leb, if◌then◌else◌, if-intro,
  option-intro, Result, err, arith,
}
use selkies_core.Sessions.{
  PendingSession, SessionManager, SessionError, Connection, new, increment_webrtc_sessions,
  decrement_webrtc_sessions, remove_entry, insert_entry, create_session_with_offer,
  remove_pending_session, find_accepting, start_session, or_same, handle_ice_tcp_connection, reap,
  reap_stale_sessions, remove_driving, end_session, Step, step, run,
}

-- The map is within its limit, and every session is counted.
pub record Inv (limit : ℕ) (s : SessionManager) : Type 0 where
  pub fixed : s.max_sessions ≡ limit
  pub within : length s.pending ≤ limit
  pub counted : length s.pending + length s.driving ≤ s.webrtc_sessions

remove_entry-length :
    (id : Text) (ps : List PendingSession)
    → OnSome (λ rest. length rest + 1 ≡ length ps) (remove_entry id ps)
unfolding remove_entry
remove_entry-length id [] = tt
remove_entry-length id (p ∷ ps) =
    if-intro (OnSome (λ rest. length rest + 1 ≡ length (p ∷ ps))) (same p.id id) (λ e. omega arith)
      λ e. more (remove_entry id ps) (remove_entry-length id ps)
  where
    more :
        (o : Option (List PendingSession))
        → OnSome (λ rest. length rest + 1 ≡ length ps) o
        → OnSome
            (λ rest. length rest + 1 ≡ length (p ∷ ps))
            (elim o [ none ↦ none | some rest ↦ some (p ∷ rest) ])
    more none h = tt
    more (some rest) h = omega arith

remove_driving-length :
    (id : Text) (ds : List Text)
    → OnSome (λ rest. length rest + 1 ≡ length ds) (remove_driving id ds)
unfolding remove_driving
remove_driving-length id [] = tt
remove_driving-length id (d ∷ ds) =
    if-intro (OnSome (λ rest. length rest + 1 ≡ length (d ∷ ds))) (same d id) (λ e. omega arith)
      λ e. more (remove_driving id ds) (remove_driving-length id ds)
  where
    more :
        (o : Option (List Text))
        → OnSome (λ rest. length rest + 1 ≡ length ds) o
        → OnSome
            (λ rest. length rest + 1 ≡ length (d ∷ ds))
            (elim o [ none ↦ none | some rest ↦ some (d ∷ rest) ])
    more none h = tt
    more (some rest) h = omega arith

insert_entry-length :
    (p : PendingSession) (ps : List PendingSession) → length (insert_entry p ps) ≤ length ps + 1
unfolding insert_entry
insert_entry-length p ps = go (remove_entry p.id ps) (remove_entry-length p.id ps)
  where
    go :
        (o : Option (List PendingSession))
        → OnSome (λ rest. length rest + 1 ≡ length ps) o
        → length (elim o [ none ↦ p ∷ ps | some rest ↦ p ∷ rest ]) ≤ length ps + 1
    go none h = omega arith
    go (some rest) h = omega arith

-- A session that was found in the map is in it.
find_accepting-remove :
    (accepts : PendingSession → Bool) (ps : List PendingSession)
    → OnSome (λ p. is_some (remove_entry p.id ps) ≡ true) (find_accepting accepts ps)
unfolding find_accepting remove_entry
find_accepting-remove accepts [] = tt
find_accepting-remove accepts (q ∷ ps) =
    if-intro (OnSome (λ p. is_some (remove_entry p.id (q ∷ ps)) ≡ true)) (accepts q)
      (λ e. rw (same_refl q.id) refl)
      (λ e. later (find_accepting accepts ps) (find_accepting-remove accepts ps))
  where
    behind :
        (o : Option (List PendingSession))
        → is_some o ≡ true
        → is_some (elim o [ none ↦ none | some rest ↦ some (q ∷ rest) ]) ≡ true
    behind none h = cc
    behind (some rest) h = refl

    later :
        (o : Option PendingSession)
        → OnSome (λ p. is_some (remove_entry p.id ps) ≡ true) o
        → OnSome (λ p. is_some (remove_entry p.id (q ∷ ps)) ≡ true) o
    later none h = tt
    later (some p) h =
        if-intro (λ (o : Option (List PendingSession)). is_some o ≡ true) (same q.id p.id)
          (λ e. refl) (λ e. behind (remove_entry p.id ps) h)

-- What the reaper leaves of `ps`: each entry that goes takes one from the count.
record Reaped (ps : List PendingSession) (s t : SessionManager) (slack : ℕ) : Type 0 where
  same_limit : t.max_sessions ≡ s.max_sessions
  fewer : length t.pending ≤ length ps
  covered : length t.pending + length t.driving + slack ≤ t.webrtc_sessions

reap_lem :
    (now : ℕ) (ps : List PendingSession) (s : SessionManager) (slack : ℕ)
    → s.pending ≡ []
    → length ps + length s.driving + slack ≤ s.webrtc_sessions
    → Reaped ps s (reap now ps s) slack
unfolding reap decrement_webrtc_sessions
reap_lem now [] s slack e h =
    let none_left : length s.pending ≡ 0 = ap length e in
    record { same_limit = refl; fewer = omega arith; covered = omega arith }
reap_lem now (p ∷ ps) s slack e h =
    let r = reap_lem now ps s (slack + 1) e (omega arith) in
    let fewer = r.fewer in
    let covered = r.covered in
    if-intro (λ t. Reaped (p ∷ ps) s t slack) (ltb 30 (now - p.created_at))
      (λ old. record { same_limit = r.same_limit; fewer = omega arith; covered = omega arith })
      (λ young. record { same_limit = r.same_limit; fewer = omega arith; covered = omega arith })

-- The state behind a call that also gives a result.
Kept {ℓ} : {A : Type ℓ} → ℕ → A × SessionManager → Type 0
Kept limit r = Inv limit r.1

kept {ℓ} : {A : Type ℓ} (limit : ℕ) (a : A) (s : SessionManager) → Inv limit s → Kept limit (a, s)
unfolding Kept
kept limit a s i = i

module _ (limit : ℕ) where
  create-Kept :
      (id addr : Text) (now : ℕ) (answer : Option Text) (s : SessionManager)
      → Inv limit s
      → Kept limit (create_session_with_offer id addr now answer s)
  unfolding create_session_with_offer increment_webrtc_sessions
  create-Kept id addr now none s i = kept limit (err SessionError.bad_offer) s i
  create-Kept id addr now (some answer) s i =
      let entry : PendingSession = record { id = id; candidate_addr = addr; created_at = now } in
      if-intro (Kept limit) (leb s.max_sessions (length s.pending)) (λ full. kept limit _ s i)
        λ room.
          let l = insert_entry-length entry s.pending in
          let f = i.fixed in
          let w = i.within in
          let c = i.counted in
          kept limit _
            (increment_webrtc_sessions (record s { pending = insert_entry entry s.pending }))
            (record { fixed = f; within = ground arith; counted = omega arith })

  remove-Kept :
      (id : Text) (s : SessionManager) → Inv limit s → Kept limit (remove_pending_session id s)
  unfolding remove_pending_session decrement_webrtc_sessions
  remove-Kept id s i = go (remove_entry id s.pending) (remove_entry-length id s.pending)
    where
      go :
          (o : Option (List PendingSession))
          → OnSome (λ rest. length rest + 1 ≡ length s.pending) o
          → Kept {A = Bool} limit (elim o [
            | none ↦ (false, s)
            | some rest ↦ (true, decrement_webrtc_sessions (record s { pending = rest }))
          ])
      go none h = kept limit false s i
      go (some rest) h =
          let w = i.within in
          let c = i.counted in
          kept limit true (decrement_webrtc_sessions (record s { pending = rest }))
            (record { fixed = i.fixed; within = omega arith; counted = omega arith })

  -- One more session is counted than there is, as behind a match.
  start-Kept :
      (c : Connection) (id : Text) (s : SessionManager)
      → s.max_sessions ≡ limit
      → length s.pending ≤ limit
      → length s.pending + length s.driving + 1 ≤ s.webrtc_sessions
      → Kept limit (start_session c id s)
  unfolding start_session decrement_webrtc_sessions
  start-Kept c id s f w n =
      if-intro (Kept limit) (not c.fed)
        (λ e. kept limit _ s (record { fixed = f; within = w; counted = omega arith }))
        (λ e.
          if-intro (Kept limit) (not c.drained)
            (λ e.
              kept limit _ (decrement_webrtc_sessions s)
                (record { fixed = f; within = w; counted = omega arith }))
            (λ e.
              kept limit _ (record s { driving = id ∷ s.driving })
                (record { fixed = f; within = w; counted = omega arith })))

  connect-Kept :
      (c : Connection) (s : SessionManager)
      → Inv limit s
      → Kept limit (handle_ice_tcp_connection c s)
  unfolding handle_ice_tcp_connection
  connect-Kept c s i =
      option-intro (Kept limit) c.frames (λ e. kept limit _ s i)
        λ frames e.
          if-intro (Kept limit) (is_empty frames) (λ e. kept limit _ s i)
            λ e.
              matched (find_accepting c.accepts s.pending)
                (find_accepting-remove c.accepts s.pending)
    where
      started :
          (p : PendingSession) (o : Option (List PendingSession))
          → is_some o ≡ true
          → OnSome (λ rest. length rest + 1 ≡ length s.pending) o
          → Kept limit (start_session c p.id (record s { pending = or_same o s.pending }))
      started p none there h = cc
      started p (some rest) there h =
          let w = i.within in
          let n = i.counted in
          start-Kept c p.id (record s { pending = rest }) i.fixed (omega arith) (omega arith)

      matched :
          (o : Option PendingSession)
          → OnSome (λ p. is_some (remove_entry p.id s.pending) ≡ true) o
          → Kept {A = Result SessionError (Unit {0})} limit (elim o [
            | none ↦ (err SessionError.not_found, s)
            | some p ↦
                start_session c p.id
                  (record s { pending = or_same (remove_entry p.id s.pending) s.pending })
          ])
      matched none there = kept limit _ s i
      matched (some p) there =
          started p (remove_entry p.id s.pending) there (remove_entry-length p.id s.pending)

  end_session-Inv :
      (id : Text) (first_drain : Bool) (s : SessionManager)
      → Inv limit s
      → Inv limit (end_session id first_drain s)
  unfolding end_session decrement_webrtc_sessions
  end_session-Inv id first_drain s i =
      go (remove_driving id s.driving) (remove_driving-length id s.driving)
    where
      go :
          (o : Option (List Text))
          → OnSome (λ rest. length rest + 1 ≡ length s.driving) o
          → Inv limit (elim o [
            | none ↦ s
            | some rest ↦
                if first_drain
                then decrement_webrtc_sessions (record s { driving = rest })
                else record s { driving = rest }
          ])
      go none h = i
      go (some rest) h =
          let w = i.within in
          let n = i.counted in
          if-intro (Inv limit) first_drain
            (λ e. record { fixed = i.fixed; within = w; counted = omega arith })
            (λ e. record { fixed = i.fixed; within = w; counted = omega arith })

  step-Inv : (x : Step) (s : SessionManager) → Inv limit s → Inv limit (step x s)
  unfolding step Kept reap_stale_sessions
  step-Inv (Step.offer id addr now answer) s i = create-Kept id addr now answer s i
  step-Inv (Step.remove id) s i = remove-Kept id s i
  step-Inv (Step.connect c) s i = connect-Kept c s i
  step-Inv (Step.ended id first_drain) s i = end_session-Inv id first_drain s i
  step-Inv (Step.tick now) s i =
      let w = i.within in
      let n = i.counted in
      let r = reap_lem now s.pending (record s { pending = [] }) 0 refl (omega arith) in
      let fewer = r.fewer in
      let covered = r.covered in
      record { fixed = r.same_limit ∙ i.fixed; within = omega arith; counted = omega arith }

  -- Whatever offers, connections, timeouts and ends come, in any order and with any answers of the
  -- network and of str0m, no more sessions than the limit wait for a connection, and the session
  -- counter is at least the number of sessions that wait or whose drive loop runs. The state at the
  -- start has this property, as a new manager has.
  pub run-Inv : (xs : List Step) (s : SessionManager) → Inv limit s → Inv limit (run xs s)
  unfolding run
  run-Inv [] s i = i
  run-Inv (x ∷ xs) s i = run-Inv xs _ (step-Inv x s i)

  pub new-Inv : Inv limit (new limit)
  unfolding new
  new-Inv = record { fixed = refl; within = omega arith; counted = omega arith }
