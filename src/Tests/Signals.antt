-- ===== src/Tests/Signals.antt =====
-- Signaling on small messages.
use selkies_core.Prelude.{
  ◌≡◌, ◌↔◌, refl, [], ◌∷◌, ◌++◌, none, some, true, Text, codes, same, trim, starts_with,
  strip_prefix, is_some, ok, err, arith,
}
use selkies_core.Config.{config_default}
use selkies_core.Settings
use selkies_core.Sessions
use selkies_core.Sessions.{remove_entry}
use selkies_core.Signaling.{SignalingMessage, Parsed, ParseError, fail, parse, slice_to}
use selkies_core.Signaling.Legacy.{LegacyMessage, meaning, parse-legacy}
use selkies_core.Signaling.Trimmed.{trim_end}
use selkies_core.Signaling.Slices.{Inside, parse-panicked_iff}
use selkies_core.Signaling.Server.{
  Connection, Turn, JsonValue, WireFormat, handle_signaling_message, finish,
}
use selkies_core.Signaling.Cleanup.{finish-offers}

abbrev from_json : Text → Parsed
from_json t = fail t

-- The line break at the end of the description is cut off.
parse-legacy_example :
    parse from_json (codes " webrtc,offer,v=0" ++ 13 ∷ 10 ∷ [])
    ≡ ok (meaning (LegacyMessage.offer (codes "v=0")))
unfolding trim trim_end
parse-legacy_example =
    parse-legacy from_json (LegacyMessage.offer (codes "v=0" ++ 13 ∷ 10 ∷ []))
      (codes " webrtc,offer,v=0" ++ 13 ∷ 10 ∷ []) (refl, (refl, (refl, (refl, (refl, tt))))) refl

-- 49 letters and a character of two bytes.
abbrev odd_message : Text
odd_message = codes "aaaaaaaaaaaaaaaaaaaaaaaaaaaaaaaaaaaaaaaaaaaaaaaaa" ++ 233 ∷ []

parse-panicked_iff_example :
    (parse from_json odd_message ≡ err ParseError.panicked) ↔ Inside 50 (trim odd_message)
unfolding starts_with strip_prefix trim
parse-panicked_iff_example = parse-panicked_iff from_json odd_message refl refl

-- A value is a text.
abbrev values : JsonValue Text
values = record {
  from_str = λ t. none;
  get = λ key v. none;
  as_object = λ v. none;
  as_str = λ v. some v;
  as_u64 = λ v. none;
}

abbrev turn : Text → Turn Text
turn id = record {
  json = values;
  from_json = from_json;
  id = id;
  addr = codes "1.2.3.4:8008";
  now = 0;
  answer = λ sdp. some sdp;
  describe = λ e. codes "no";
  describe_parse = λ t. t;
  video_codec = codes "h264";
  logs_debug = true;
}

abbrev connection : Connection
connection = record {
  session_id = none;
  wire_format = WireFormat.selkies;
  manager = Sessions.new 4;
  settings = Settings.new (config_default true);
  sent = [];
  is_open = true;
}

abbrev offered : Connection
offered =
    handle_signaling_message (turn (codes "a")) (SignalingMessage.offer (codes "v=0") none)
      connection

finish-offers_example :
    ((finish offered).manager ≡ connection.manager)
    × (is_some (
          remove_entry
            (codes "a")
            (finish (
              handle_signaling_message
                (turn (codes "b"))
                (SignalingMessage.offer (codes "v=1") none)
                offered)).manager.pending)
        ≡ true)
unfolding Sessions.new same remove_entry slice_to
finish-offers_example =
    finish-offers (turn (codes "a")) (turn (codes "b")) (codes "v=0") (codes "v=1") (codes "v=0")
      (codes "v=1") connection refl refl refl refl refl refl (omega arith) refl
