-- ===== src/Signaling.antt =====
-- src/webrtc/signaling.rs: the messages that set a session up, and their legacy form. `serde_json` is
-- a parameter. A float is its bit pattern.
pub mod Trimmed
pub mod Legacy
pub mod Slices
pub mod Server
pub mod Cleanup
use selkies_core.Prelude.{
  ℕ, zero, suc, ◌+◌, ◌-◌, ◌≤◌, Bool, true, false, List, [], ◌∷◌, ◌++◌, Option, none, some, Text,
  codes, same, starts_with, trim, split_once, ltb, ◌==◌, if◌then◌else◌, Result, ok, err,
}

pub data SignalingMessage : Type 0 where
  offer : Text → Option Text → SignalingMessage
  answer : Text → Text → SignalingMessage
  ice_candidate : Text → Option Text → Option ℕ → Text → SignalingMessage
  ice_complete : Text → SignalingMessage
  ready : Text → Text → Text → SignalingMessage
  error : Text → Text → Option Text → SignalingMessage
  ping : ℕ → SignalingMessage
  pong : ℕ → SignalingMessage
  keyframe_request : Text → SignalingMessage
  bitrate_request : Text → ℕ → SignalingMessage
  stats : Text → Option ℕ → Option ℕ → Option ℕ → SignalingMessage
  close : Text → Option Text → SignalingMessage

unfoldable pub session_id : SignalingMessage → Option Text
session_id (SignalingMessage.offer sdp id) = id
session_id (SignalingMessage.answer sdp id) = some id
session_id (SignalingMessage.ice_candidate c mid index id) = some id
session_id (SignalingMessage.ice_complete id) = some id
session_id (SignalingMessage.ready id codec channel) = some id
session_id (SignalingMessage.error code message id) = id
session_id (SignalingMessage.keyframe_request id) = some id
session_id (SignalingMessage.bitrate_request id kbps) = some id
session_id (SignalingMessage.stats id time lost jitter) = some id
session_id (SignalingMessage.close id reason) = some id
session_id (SignalingMessage.ping t) = none
session_id (SignalingMessage.pong t) = none

-- An `SdpError`, or a panic.
pub data ParseError : Type 0 where
  sdp_error : Text → ParseError
  panicked : ParseError

abbrev pub Parsed : Type 0
Parsed = Result ParseError SignalingMessage

abbrev pub fail : Text → Parsed
fail message = err (ParseError.sdp_error message)

-- `s.splitn(n, c)`.
unfoldable pub splitn : ℕ → ℕ → Text → List Text
splitn zero c s = []
splitn (suc zero) c s = s ∷ []
splitn (suc (suc n)) c s = elim (split_once c s) [
  | none ↦ s ∷ []
  | some (a, b) ↦ a ∷ splitn (suc n) c b
]

-- Each arm, on the parts behind the command.
unfoldable pub legacy_offer : List Text → Parsed
legacy_offer [] = fail (codes "Missing SDP in offer")
legacy_offer (sdp ∷ []) = ok (SignalingMessage.offer sdp none)
legacy_offer (sdp ∷ id ∷ more) = ok (SignalingMessage.offer sdp (some id))

unfoldable pub legacy_answer : List Text → Parsed
legacy_answer (sdp ∷ id ∷ more) = ok (SignalingMessage.answer sdp id)
legacy_answer _ = fail (codes "Missing SDP or session_id in answer")

unfoldable pub legacy_ice : List Text → Parsed
legacy_ice (candidate ∷ id ∷ more) =
    ok (SignalingMessage.ice_candidate candidate (some (codes "0")) (some 0) id)
legacy_ice _ = fail (codes "Missing ICE candidate data")

unfoldable pub legacy_keyframe : List Text → Parsed
legacy_keyframe [] = fail (codes "Missing session_id in keyframe request")
legacy_keyframe (id ∷ more) = ok (SignalingMessage.keyframe_request id)

unfoldable pub legacy_close : List Text → Parsed
legacy_close [] = fail (codes "Missing session_id in close")
legacy_close (id ∷ []) = ok (SignalingMessage.close id none)
legacy_close (id ∷ reason ∷ more) = ok (SignalingMessage.close id (some reason))

-- `match parts[1]`.
unfoldable pub legacy_command : Text → List Text → Parsed
unfolding legacy_offer legacy_answer legacy_ice legacy_keyframe legacy_close
legacy_command cmd rest =
    if same cmd (codes "offer")
    then legacy_offer rest
    else if same cmd (codes "answer")
    then legacy_answer rest
    else if same cmd (codes "ice")
    then legacy_ice rest
    else if same cmd (codes "keyframe")
    then legacy_keyframe rest
    else if same cmd (codes "close")
    then legacy_close rest
    else fail (codes "Unknown legacy command: " ++ cmd)

abbrev pub on_legacy : List Text → Parsed
on_legacy (tag ∷ cmd ∷ rest) = legacy_command cmd rest
on_legacy _ = fail (codes "Invalid legacy message format")

unfoldable pub parse_legacy : Text → Parsed
unfolding splitn legacy_command
parse_legacy text = on_legacy (splitn 4 b',' text)

-- The bytes of a character in UTF-8.
abbrev pub len_utf8 : ℕ → ℕ
len_utf8 c = if ltb c 128 then 1 else if ltb c 2048 then 2 else if ltb c 65536 then 3 else 4

-- `&text[..text.len().min(n)]`: the characters of the first `n` bytes; `none` is the panic when the
-- `n`-th byte ends no character.
unfoldable pub slice_to : ℕ → Text → Option Text
slice_to n [] = some []
slice_to n (c ∷ s) =
    let rest = slice_to (n - len_utf8 c) s in
    if n == 0
    then some []
    else if ltb n (len_utf8 c)
    then none
    else elim rest [ none ↦ none | some t ↦ some (c ∷ t) ]

abbrev pub unknown_format : Option Text → Parsed
unknown_format none = err ParseError.panicked
unknown_format (some start) = fail (codes "Unknown message format: " ++ start)

-- `SignalingParser::parse`, with `serde_json::from_str`.
unfoldable pub parse : (Text → Parsed) → Text → Parsed
unfolding parse_legacy slice_to
parse from_json raw =
    let text = trim raw in
    if starts_with text (codes "{")
    then from_json text
    else if starts_with text (codes "webrtc,")
    then parse_legacy text
    else unknown_format (slice_to 50 text)
