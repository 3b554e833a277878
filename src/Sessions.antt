-- ===== src/Sessions.antt =====
-- src/webrtc/session.rs, the end of `drive_session` in src/webrtc/rtc_session.rs and the session
-- counter of src/web/shared.rs: sessions from the offer over the wait for a TCP connection to the
-- end of the drive loop. str0m and the network are parameters: each operation takes their answers.
-- The map of pending sessions is a list of entries; `driving` are the sessions whose drive loop
-- runs. Times are in seconds.
pub mod Capacity
pub mod Count
use selkies_core.Prelude.{
  ℕ, ◌+◌, ◌-◌, Bool, true, false, not, List, [], ◌∷◌, Option, none, some, Bytes, Text, length,
  is_empty, same, ltb, leb, if◌then◌else◌, Result, ok, err,
}

pub record PendingSession : Type 0 where
  pub id : Text
  pub candidate_addr : Text
  pub created_at : ℕ

pub record SessionManager : Type 0 where
  pub max_sessions : ℕ
  pub pending : List PendingSession
  pub webrtc_sessions : ℕ
  pub driving : List Text

pub data SessionError : Type 0 where
  bad_offer : SessionError
  maximum_reached : SessionError
  bad_frames : SessionError
  no_frames : SessionError
  not_found : SessionError
  bad_packet : SessionError
  no_drain : SessionError

unfoldable pub new : ℕ → SessionManager
new max_sessions = record {
  max_sessions = max_sessions;
  pending = [];
  webrtc_sessions = 0;
  driving = [];
}

unfoldable pub increment_webrtc_sessions : SessionManager → SessionManager
increment_webrtc_sessions s = record s { webrtc_sessions = s.webrtc_sessions + 1 }

-- Stops at 0.
unfoldable pub decrement_webrtc_sessions : SessionManager → SessionManager
decrement_webrtc_sessions s = record s { webrtc_sessions = s.webrtc_sessions - 1 }

-- `pending.remove(id)`: the map without the entry, if there is one.
unfoldable pub remove_entry : Text → List PendingSession → Option (List PendingSession)
remove_entry id [] = none
remove_entry id (p ∷ ps) =
    if same p.id id
    then some ps
    else elim (remove_entry id ps) [ none ↦ none | some rest ↦ some (p ∷ rest) ]

-- `pending.insert(id, ..)`: an entry of the same id is replaced.
unfoldable pub insert_entry : PendingSession → List PendingSession → List PendingSession
unfolding remove_entry
insert_entry p ps = elim (remove_entry p.id ps) [ none ↦ p ∷ ps | some rest ↦ p ∷ rest ]

-- With the new id, the address, the time, and str0m's answer to the offer, if it takes it. The log
-- line before, which cuts the offer at byte 200, is in Signaling/Server, where the offer is.
unfoldable pub create_session_with_offer :
    Text
    → Text
    → ℕ
    → Option Text
    → SessionManager
    → Result SessionError (Text × Text) × SessionManager
unfolding insert_entry increment_webrtc_sessions
create_session_with_offer id addr now none s = (err SessionError.bad_offer, s)
create_session_with_offer id addr now (some answer_sdp) s =
    if leb s.max_sessions (length s.pending)
    then (err SessionError.maximum_reached, s)
    else (let entry : PendingSession = record {
      id = id;
      candidate_addr = addr;
      created_at = now;
    } in
        (
          ok (id, answer_sdp),
          increment_webrtc_sessions (record s { pending = insert_entry entry s.pending }),
        ))

unfoldable pub remove_pending_session : Text → SessionManager → Bool × SessionManager
unfolding remove_entry decrement_webrtc_sessions
remove_pending_session id s = elim (remove_entry id s.pending) [
  | none ↦ (false, s)
  | some rest ↦ (true, decrement_webrtc_sessions (record s { pending = rest }))
]

-- The loop over the map: the first entry whose session accepts the packet.
unfoldable pub find_accepting :
    (PendingSession → Bool) → List PendingSession → Option PendingSession
find_accepting accepts [] = none
find_accepting accepts (p ∷ ps) = if accepts p then some p else find_accepting accepts ps

-- What the network and str0m answer while a connection is handled: the first frames, as the decoder
-- gives them, whether a session accepts the first, whether the frames can be fed to it, and whether its output was sent.
pub record Connection : Type 0 where
  pub frames : Option (List Bytes)
  pub accepts : PendingSession → Bool
  pub fed : Bool
  pub drained : Bool

abbrev pub Connected : Type 0
Connected = Result SessionError (Unit {0}) × SessionManager

-- Behind the match: the session is no longer in the map.
unfoldable pub start_session : Connection → Text → SessionManager → Connected
unfolding decrement_webrtc_sessions
start_session c id s =
    if not c.fed
    then (err SessionError.bad_packet, s)
    else if not c.drained
    then (err SessionError.no_drain, decrement_webrtc_sessions s)
    else (ok tt, record s { driving = id ∷ s.driving })

abbrev pub or_same : Option (List PendingSession) → List PendingSession → List PendingSession
or_same none ps = ps
or_same (some rest) ps = rest

unfoldable pub handle_ice_tcp_connection : Connection → SessionManager → Connected
unfolding find_accepting start_session remove_entry
handle_ice_tcp_connection c s = elim c.frames [
  | none ↦ (err SessionError.bad_frames, s)
  | some frames ↦
      if is_empty frames
      then (err SessionError.no_frames, s)
      else elim (find_accepting c.accepts s.pending) [
        | none ↦ (err SessionError.not_found, s)
        | some p ↦
            start_session c p.id
              (record s { pending = or_same (remove_entry p.id s.pending) s.pending })
      ]
]

-- One tick of the reaper: the entries older than 30 seconds go, one decrement for each.
unfoldable pub reap : ℕ → List PendingSession → SessionManager → SessionManager
unfolding decrement_webrtc_sessions
reap now [] s = s
reap now (p ∷ ps) s =
    let rest = reap now ps s in
    if ltb 30 (now - p.created_at)
    then decrement_webrtc_sessions rest
    else record rest { pending = p ∷ rest.pending }

unfoldable pub reap_stale_sessions : ℕ → SessionManager → SessionManager
unfolding reap
reap_stale_sessions now s = reap now s.pending (record s { pending = [] })

unfoldable pub remove_driving : Text → List Text → Option (List Text)
remove_driving id [] = none
remove_driving id (d ∷ ds) =
    if same d id
    then some ds
    else elim (remove_driving id ds) [ none ↦ none | some rest ↦ some (d ∷ rest) ]

-- The end of a drive loop that runs: when its first drain failed, it returns at once.
unfoldable pub end_session : Text → Bool → SessionManager → SessionManager
unfolding remove_driving decrement_webrtc_sessions
end_session id first_drain s = elim (remove_driving id s.driving) [
  | none ↦ s
  | some rest ↦
      if first_drain
      then decrement_webrtc_sessions (record s { driving = rest })
      else record s { driving = rest }
]

pub data Step : Type 0 where
  offer : Text → Text → ℕ → Option Text → Step
  remove : Text → Step
  connect : Connection → Step
  tick : ℕ → Step
  ended : Text → Bool → Step

unfoldable pub step : Step → SessionManager → SessionManager
unfolding create_session_with_offer remove_pending_session handle_ice_tcp_connection
    reap_stale_sessions end_session
step (Step.offer id addr now answer) s = (create_session_with_offer id addr now answer s).1
step (Step.remove id) s = (remove_pending_session id s).1
step (Step.connect c) s = (handle_ice_tcp_connection c s).1
step (Step.tick now) s = reap_stale_sessions now s
step (Step.ended id first_drain) s = end_session id first_drain s

-- The manager as its tasks take turns, in any order.
unfoldable pub run : List Step → SessionManager → SessionManager
unfolding step
run [] s = s
run (x ∷ xs) s = run xs (step x s)
