-- ===== src/Signaling/Cleanup.antt =====
-- src/transport/signaling_server.rs: what is left of a connection's offers when it ends.
use selkies_core.Prelude.{
  ℕ, ◌+◌, ◌-◌, ◌<◌, ◌≡◌, refl, ap, ◌∙◌, Bool, true, false, List, ◌∷◌, Option, none, some, Text,
  length, same, same_refl, leb, if◌then◌else◌, if-false, is_some, arith, ok,
}
use selkies_core.Sessions.{
  SessionManager, PendingSession, or_same, create_session_with_offer, insert_entry, remove_entry,
  remove_pending_session, increment_webrtc_sessions, decrement_webrtc_sessions,
}
use selkies_core.Signaling.{SignalingMessage, slice_to}
use selkies_core.Signaling.Server.{
  Connection, Turn, WireFormat, Reply, send, announce, handle_signaling_message, finish,
  format_signaling_message, logged,
}

-- The entry of a session that a turn makes.
abbrev pub entry_of : {Value : Type 0} → Turn Value → PendingSession
entry_of t = record { id = t.id; candidate_addr = t.addr; created_at = t.now }

abbrev counted : List PendingSession → SessionManager → SessionManager
counted ps m = record m { pending = ps; webrtc_sessions = m.webrtc_sessions + 1 }

created :
    (id addr : Text) (now : ℕ) (sdp : Text) (m : SessionManager)
    → length m.pending < m.max_sessions
    → create_session_with_offer id addr now (some sdp) m ≡ (
      ok (id, sdp),
      counted
          (insert_entry (record { id = id; candidate_addr = addr; created_at = now }) m.pending)
          m,
    )
unfolding create_session_with_offer increment_webrtc_sessions
created id addr now sdp m room =
    if-false (leb m.max_sessions (length m.pending)) _ _ (let h = room in ground arith)

-- What sending leaves alone.
record Same (c c' : Connection) : Type 0 where
  session : c'.session_id ≡ c.session_id
  manager : c'.manager ≡ c.manager
  still_open : c'.is_open ≡ c.is_open

send-Same : (r : Option Reply) (c : Connection) → Same c (send r c)
send-Same none c = record { session = refl; manager = refl; still_open = refl }
send-Same (some r) c = record { session = refl; manager = refl; still_open = refl }

Same-trans : (a b c : Connection) → Same a b → Same b c → Same a c
Same-trans a b c p q = record {
  session = q.session ∙ p.session;
  manager = q.manager ∙ p.manager;
  still_open = q.still_open ∙ p.still_open;
}

announce-Same :
    (wire : WireFormat) (codec sid : Text) (c : Connection) → Same c (announce wire codec sid c)
announce-Same WireFormat.selkies codec sid c = Same-trans c _ _ (send-Same _ c) (send-Same _ _)
announce-Same WireFormat.gstreamer codec sid c = record {
  session = refl;
  manager = refl;
  still_open = refl;
}

abbrev offer_of : Text → SignalingMessage
offer_of sdp = SignalingMessage.offer sdp none

-- A log line that cuts no character changes nothing.
logged-shown :
    (n : ℕ) (shown : Text) (next c : Connection)
    → is_some (slice_to n shown) ≡ true
    → logged n shown next c ≡ next
unfolding logged
logged-shown n shown next c h = either (slice_to n shown) h
  where
    either :
        (o : Option Text)
        → is_some o ≡ true
        → elim o [ some start ↦ next | none ↦ record c { is_open = false } ] ≡ next
    either none k = cc
    either (some start) k = refl

-- A state after an offer that is accepted.
abbrev Offered : {Value : Type 0} → Turn Value → Connection → Connection → Type 0
Offered t c c' =
    (c'.session_id ≡ some t.id)
    × (c'.manager ≡ counted (insert_entry (entry_of t) c.manager.pending) c.manager)
    × (c'.is_open ≡ c.is_open)

offered :
    {Value : Type 0} (t : Turn Value) (sdp reply : Text) (c : Connection)
    → is_some (slice_to 200 sdp) ≡ true
    → t.answer sdp ≡ some reply
    → length c.manager.pending < c.manager.max_sessions
    → Offered t c (handle_signaling_message t (offer_of sdp) c)
unfolding handle_signaling_message
offered t sdp reply c shown answered room =
    rw (logged-shown 200 sdp _ c shown, answered, created t.id t.addr t.now reply c.manager room)
      (let begun = record c {
        session_id = some t.id;
        manager = counted (insert_entry (entry_of t) c.manager.pending) c.manager;
      } in
        let told = announce-Same c.wire_format t.video_codec t.id begun in
        let all = Same-trans begun _ _ told (
          send-Same
            (format_signaling_message (SignalingMessage.answer reply t.id)
              (announce c.wire_format t.video_codec t.id begun).wire_format)
            (announce c.wire_format t.video_codec t.id begun)) in
        (all.session, all.manager, all.still_open))

finish_lem :
    (c : Connection) (sid : Text)
    → c.is_open ≡ true
    → c.session_id ≡ some sid
    → (finish c).manager ≡ (remove_pending_session sid c.manager).1
unfolding finish
finish_lem c sid is_open session = go c.is_open c.session_id is_open session
  where
    go :
        (b : Bool) (o : Option Text)
        → b ≡ true
        → o ≡ some sid
        → (if b
            then elim o [
              | none ↦ c
              | some sid ↦ record c { manager = (remove_pending_session sid c.manager).1 }
            ]
            else c).manager
          ≡ (remove_pending_session sid c.manager).1
    go true none h k = cc
    go true (some x) h k =
        let e : x ≡ sid = cc in ap (λ y. (remove_pending_session y c.manager).1) e
    go false o h k = cc

-- The first entry is the one removed.
removed :
    (p : PendingSession) (ps : List PendingSession) (m : SessionManager)
    → (remove_pending_session p.id (counted (p ∷ ps) m)).1 ≡ record m { pending = ps }
unfolding remove_pending_session remove_entry decrement_webrtc_sessions
removed p ps m =
    rw (remove_pending_session, remove_entry, same_refl p.id)
      (let back : m.webrtc_sessions + 1 - 1 ≡ m.webrtc_sessions = omega arith in
        λ i. record m { pending = ps; webrtc_sessions = back i })

-- A new entry is the first.
without : Text → List PendingSession → List PendingSession
without id ps = or_same (remove_entry id ps) ps

insert_entry-first :
    (p : PendingSession) (ps : List PendingSession) → insert_entry p ps ≡ p ∷ without p.id ps
unfolding insert_entry without
insert_entry-first p ps = either (remove_entry p.id ps)
  where
    either :
        (o : Option (List PendingSession))
        → elim o [ none ↦ p ∷ ps | some rest ↦ p ∷ rest ] ≡ p ∷ or_same o ps
    either none = refl
    either (some rest) = refl

without-new :
    (id : Text) (ps : List PendingSession) → remove_entry id ps ≡ none → without id ps ≡ ps
unfolding without
without-new id ps h = ap (λ o. or_same o ps) h

-- An entry of another id stays behind.
without-other :
    (p : PendingSession) (ps : List PendingSession) (id : Text)
    → same p.id id ≡ false
    → is_some (remove_entry p.id (without id (p ∷ ps))) ≡ true
unfolding without remove_entry
without-other p ps id differ = rw differ (either (remove_entry id ps))
  where
    either :
        (o : Option (List PendingSession))
        → is_some (
            remove_entry p.id
              (or_same (elim o [ none ↦ none | some rest ↦ some (p ∷ rest) ]) (p ∷ ps)))
          ≡ true
    either none = rw (remove_entry, same_refl p.id) refl
    either (some rest) = rw (remove_entry, same_refl p.id) refl

after_one :
    {Value : Type 0} (t : Turn Value) (sdp reply : Text) (c : Connection)
    → is_some (slice_to 200 sdp) ≡ true
    → t.answer sdp ≡ some reply
    → c.is_open ≡ true
    → length c.manager.pending < c.manager.max_sessions
    → (finish (handle_signaling_message t (offer_of sdp) c)).manager
      ≡ record c.manager { pending = without t.id c.manager.pending }
after_one t sdp reply c shown answered runs room =
    let (session, manager, still_open) = offered t sdp reply c shown answered room in
    finish_lem (handle_signaling_message t (offer_of sdp) c) t.id (still_open ∙ runs) session
    ∙ ap (λ m. (remove_pending_session t.id m).1)
        (manager
          ∙ ap (λ ps. counted ps c.manager) (insert_entry-first (entry_of t) c.manager.pending))
    ∙ removed (entry_of t) (without t.id c.manager.pending) c.manager

-- A connection that makes one offer, under a new id, and then ends without its session having been
-- connected, leaves the session manager as it found it. One that makes two offers leaves the first
-- session waiting: only the second is removed. Both offers are answered, the log line that shows the
-- first 200 bytes of each cuts no character, and there is room for the sessions.
pub finish-offers :
    {Value : Type 0} (t u : Turn Value) (sdp sdp' reply reply' : Text) (c : Connection)
    → is_some (slice_to 200 sdp) ≡ true
    → is_some (slice_to 200 sdp') ≡ true
    → t.answer sdp ≡ some reply
    → u.answer sdp' ≡ some reply'
    → c.is_open ≡ true
    → same t.id u.id ≡ false
    → length c.manager.pending + 1 < c.manager.max_sessions
    → remove_entry t.id c.manager.pending ≡ none
    → ((finish (handle_signaling_message t (SignalingMessage.offer sdp none) c)).manager
        ≡ c.manager)
      × (is_some (
            remove_entry t.id
              (finish (
                handle_signaling_message u (SignalingMessage.offer sdp' none) (
                  handle_signaling_message t (SignalingMessage.offer sdp none) c))).manager.pending)
          ≡ true)
finish-offers t u sdp sdp' reply reply' c shown shown' answered answered' runs differ room new_id =
    let (session, manager, still_open) = offered t sdp reply c shown answered (omega arith) in
    let first = handle_signaling_message t (offer_of sdp) c in
    let pending : first.manager.pending ≡ entry_of t ∷ c.manager.pending =
      ap (λ (m : SessionManager). m.pending) manager
      ∙ insert_entry-first (entry_of t) c.manager.pending
      ∙ ap (◌∷◌ (entry_of t)) (without-new t.id c.manager.pending new_id) in
    let limit : first.manager.max_sessions ≡ c.manager.max_sessions =
      ap (λ (m : SessionManager). m.max_sessions) manager in
    let size : length first.manager.pending ≡ length c.manager.pending + 1 =
      ap length pending ∙ omega arith in
    let second = after_one u sdp' reply' first shown' answered' (still_open ∙ runs) (omega arith) in
    (
      after_one t sdp reply c shown answered runs (omega arith)
          ∙ ap (λ ps. record c.manager { pending = ps })
              (without-new t.id c.manager.pending new_id),
      ap (λ (m : SessionManager). is_some (remove_entry t.id m.pending)) second
          ∙ ap (λ ps. is_some (remove_entry t.id (without u.id ps))) pending
          ∙ without-other (entry_of t) c.manager.pending u.id differ,
    )
