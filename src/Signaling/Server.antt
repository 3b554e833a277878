-- ===== src/Signaling/Server.antt =====
-- src/transport/signaling_server.rs: a signaling connection, message by message. `serde_json`, new
-- ids, the clock and str0m's answer to an offer are given with each message; a reply is a value
-- in place of its JSON text, which serializing always gives.
use selkies_core.Prelude.{
  ℕ, ◌%◌, ◌^◌, Bool, false, List, [], ◌∷◌, ◌++◌, Option, none, some, Text, codes, same, starts_with,
  trim, if◌then◌else◌, unwrap_or, and_then, Result, ok, err,
}
use selkies_core.Sessions.{
  SessionManager, SessionError, create_session_with_offer, remove_pending_session,
}
use selkies_core.Settings.{RuntimeSettings, request_keyframe, set_video_bitrate_kbps}
use selkies_core.Signaling.{SignalingMessage, ParseError, Parsed, parse, slice_to}

pub data WireFormat : Type 0 where
  selkies gstreamer : WireFormat

-- What goes back: a fixed text, an error line, or a message in JSON, in one of the two forms.
pub data Reply : Type 0 where
  text : Text → Reply
  error_line : Text → Text → Reply
  json : SignalingMessage → Reply
  gstreamer_json : SignalingMessage → Reply

-- What the code uses of `serde_json`'s values.
pub record JsonValue (Value : Type 0) : Type 0 where
  pub from_str : Text → Option Value
  pub get : Text → Value → Option Value
  pub as_object : Value → Option Value
  pub as_str : Value → Option Text
  pub as_u64 : Value → Option ℕ

-- What other code answers while one message is handled. `answer` is str0m's answer to an SDP, and
-- `logs_debug` says whether lines of the level debug are logged.
pub record Turn (Value : Type 0) : Type 0 where
  pub json : JsonValue Value
  pub from_json : Text → Parsed
  pub id : Text
  pub addr : Text
  pub now : ℕ
  pub answer : Text → Option Text
  pub describe : SessionError → Text
  pub describe_parse : Text → Text
  pub video_codec : Text
  pub logs_debug : Bool

-- The task's variables, the shared parts that it changes, and what it sent.
pub record Connection : Type 0 where
  pub session_id : Option Text
  pub wire_format : WireFormat
  pub manager : SessionManager
  pub settings : RuntimeSettings
  pub sent : List Reply
  pub is_open : Bool

unfoldable pub handle_gstreamer_control_message : Text → WireFormat → Option Reply × WireFormat
handle_gstreamer_control_message message wire =
    let trimmed = trim message in
    if starts_with trimmed (codes "HELLO")
    then (some (Reply.text (codes "HELLO")), WireFormat.gstreamer)
    else if starts_with trimmed (codes "SESSION")
    then (some (Reply.text (codes "SESSION_OK")), WireFormat.gstreamer)
    else (none, wire)

module _ {Value : Type 0} (j : JsonValue Value) where
  abbrev text_at : Text → Value → Option Text
  text_at key v = and_then (j.get key v) j.as_str

  unfoldable pub parse_sdp : Value → Option SignalingMessage
  parse_sdp v = and_then (j.as_object v) λ o. and_then (text_at (codes "type") o) λ kind.
      and_then (text_at (codes "sdp") o) λ sdp.
        if same kind (codes "offer")
        then some (SignalingMessage.offer sdp none)
        else if same kind (codes "answer")
        then some (SignalingMessage.answer sdp [])
        else none

  abbrev as_u16 : Option ℕ → Option ℕ
  as_u16 none = none
  as_u16 (some n) = some (n % 2 ^ 16)

  unfoldable pub parse_ice : Value → Option SignalingMessage
  parse_ice v = and_then (j.as_object v) λ o. and_then (text_at (codes "candidate") o) λ candidate.
      some (
        SignalingMessage.ice_candidate candidate (text_at (codes "sdpMid") o)
          (as_u16 (and_then (j.get (codes "sdpMLineIndex") o) j.as_u64)) [])

  unfoldable pub parse_value : Value → Option SignalingMessage
  unfolding parse_sdp parse_ice
  parse_value value = elim (j.get (codes "sdp") value) [
    | some sdp ↦ parse_sdp sdp
    | none ↦ and_then (j.get (codes "ice") value) parse_ice
  ]

  unfoldable pub parse_gstreamer_json_message : Text → Option SignalingMessage
  unfolding parse_value
  parse_gstreamer_json_message message = and_then (j.from_str message) parse_value

unfoldable pub format_gstreamer : SignalingMessage → Option Reply
format_gstreamer (SignalingMessage.offer sdp id) =
    some (Reply.gstreamer_json (SignalingMessage.offer sdp id))
format_gstreamer (SignalingMessage.answer sdp id) =
    some (Reply.gstreamer_json (SignalingMessage.answer sdp id))
format_gstreamer (SignalingMessage.ice_candidate c mid index id) =
    some (Reply.gstreamer_json (SignalingMessage.ice_candidate c mid index id))
format_gstreamer (SignalingMessage.ice_complete id) = none
format_gstreamer (SignalingMessage.error code message id) = some (Reply.error_line code message)
format_gstreamer (SignalingMessage.pong t) = some (Reply.gstreamer_json (SignalingMessage.pong t))
format_gstreamer _ = none

unfoldable pub format_signaling_message : SignalingMessage → WireFormat → Option Reply
unfolding format_gstreamer
format_signaling_message m WireFormat.selkies = some (Reply.json m)
format_signaling_message m WireFormat.gstreamer = format_gstreamer m

-- `if let Some(msg) = .. { tx.send(msg) }`.
abbrev pub send : Option Reply → Connection → Connection
send none c = c
send (some r) c = record c { sent = c.sent ++ r ∷ [] }

abbrev pub send_message : SignalingMessage → Connection → Connection
send_message m c = send (format_signaling_message m c.wire_format) c

-- The two notifications before an answer, which the Selkies form has.
abbrev pub announce : WireFormat → Text → Text → Connection → Connection
announce WireFormat.selkies codec sid c =
    send_message (SignalingMessage.ice_complete sid)
      (send_message (SignalingMessage.ready sid codec (codes "input")) c)
announce WireFormat.gstreamer codec sid c = c

abbrev pub on_session :
    (SessionError → Text)
    → Text
    → Option Text
    → Connection
    → Result SessionError (Text × Text) × SessionManager
    → Connection
on_session describe codec provided c (ok (sid, answer_sdp), m) =
    send_message (SignalingMessage.answer answer_sdp sid)
      (announce c.wire_format codec sid (record c { session_id = some sid; manager = m }))
on_session describe codec provided c (err e, m) =
    send_message (SignalingMessage.error (codes "SESSION_ERROR") (describe e) provided)
      (record c { manager = m })

-- A log line that shows the first `n` bytes of a text panics when the last of them ends no character;
-- a panic ends the task where it stands.
unfoldable pub logged : ℕ → Text → Connection → Connection → Connection
unfolding slice_to
logged n shown next c = elim (slice_to n shown) [
  | some start ↦ next
  | none ↦ record c { is_open = false }
]

module _ {Value : Type 0} (t : Turn Value) where
  -- The log line of an offer stands in `create_session_with_offer`, before it changes anything.
  unfoldable pub handle_signaling_message : SignalingMessage → Connection → Connection
  unfolding format_signaling_message create_session_with_offer remove_pending_session
      request_keyframe set_video_bitrate_kbps logged
  handle_signaling_message (SignalingMessage.offer sdp provided) c =
      logged 200 sdp
        (on_session t.describe t.video_codec provided c
          (create_session_with_offer t.id t.addr t.now (t.answer sdp) c.manager))
        c
  handle_signaling_message (SignalingMessage.ice_candidate candidate mid index id) c =
      if t.logs_debug then logged 80 candidate c c else c
  handle_signaling_message (SignalingMessage.keyframe_request id) c = record c {
    settings = request_keyframe c.settings;
  }
  handle_signaling_message (SignalingMessage.bitrate_request id kbps) c = record c {
    settings = set_video_bitrate_kbps kbps c.settings;
  }
  handle_signaling_message (SignalingMessage.ping stamp) c =
      send_message (SignalingMessage.pong stamp) c
  handle_signaling_message (SignalingMessage.close id reason) c = record c {
    manager = (remove_pending_session (unwrap_or c.session_id id) c.manager).1;
    session_id = none;
  }
  handle_signaling_message _ c = c

  abbrev pub on_parsed : Parsed → Connection → Connection
  on_parsed (ok m) c = handle_signaling_message m c
  on_parsed (err (ParseError.sdp_error e)) c =
      send_message (SignalingMessage.error (codes "PARSE_ERROR") (t.describe_parse e) c.session_id)
        c
  on_parsed (err ParseError.panicked) c = record c { is_open = false }

  abbrev pub on_control : Text → Connection → Option Reply × WireFormat → Connection
  on_control message c (some reply, wire) = send (some reply) (record c { wire_format = wire })
  on_control message c (none, wire) = elim (parse_gstreamer_json_message t.json message) [
    | some m ↦ handle_signaling_message m (record c { wire_format = WireFormat.gstreamer })
    | none ↦ on_parsed (parse t.from_json message) (record c { wire_format = wire })
  ]

  unfoldable pub handle_message : Text → Connection → Connection
  unfolding handle_gstreamer_control_message parse_gstreamer_json_message handle_signaling_message
  handle_message message c =
      on_control message c (handle_gstreamer_control_message message c.wire_format)

-- The loop: a task that has panicked reads no more.
unfoldable pub handle_messages :
    {Value : Type 0} → List (Turn Value × Text) → Connection → Connection
unfolding handle_message
handle_messages [] c = c
handle_messages ((t, m) ∷ ms) c = if c.is_open then handle_messages ms (handle_message t m c) else c

-- When the connection ends, by its peer or an error; a task that has panicked does not come here.
unfoldable pub finish : Connection → Connection
finish c =
    if c.is_open
    then elim c.session_id [
      | none ↦ c
      | some sid ↦ record c { manager = (remove_pending_session sid c.manager).1 }
    ]
    else c
