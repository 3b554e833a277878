-- ===== src/Shared.antt =====
-- src/web/shared.rs: the state that the tasks share, but for the clipboard (Clipboard) and the
-- counter of sessions (Sessions). Each locked or atomic field is a field of the record. A float is
-- its bit pattern. Commands that are launched are a log, each with its directory.
pub mod Subscribers
use selkies_core.Prelude.{
  ℕ, ◌+◌, ◌%◌, ◌^◌, Bool, true, false, not, ◌&&◌, List, [], ◌∷◌, ◌++◌, Option, none, some, Bytes,
  Text, codes, is_empty, same, starts_with, trim, trim_start_matches, ◌==◌, if◌then◌else◌,
  unwrap_or,
}
use selkies_core.Config.{Config}
use selkies_core.Shared.Subscribers
use selkies_core.Shared.Subscribers.{Hub, none_yet, add_subscriber}

pub record RuntimeStats : Type 0 where
  pub fps : ℕ
  pub bandwidth : ℕ
  pub latency_ms : ℕ
  pub client_latency_ms : ℕ
  pub client_fps : ℕ
  pub total_frames : ℕ
  pub total_bytes : ℕ
  pub cpu_percent : ℕ
  pub mem_used : ℕ
  pub ice_candidates_total : ℕ
  pub ice_candidates_tcp : ℕ
  pub proto_http : ℕ
  pub proto_ice_tcp : ℕ
  pub proto_tls : ℕ
  pub proto_unknown : ℕ

-- `RuntimeStats::default`; the bit pattern of 0.0 is 0.
abbrev pub stats_default : RuntimeStats
stats_default = record {
  fps = 0;
  bandwidth = 0;
  latency_ms = 0;
  client_latency_ms = 0;
  client_fps = 0;
  total_frames = 0;
  total_bytes = 0;
  cpu_percent = 0;
  mem_used = 0;
  ice_candidates_total = 0;
  ice_candidates_tcp = 0;
  proto_http = 0;
  proto_ice_tcp = 0;
  proto_tls = 0;
  proto_unknown = 0;
}

-- An audio packet is its samples' bytes.
pub record SharedState : Type 0 where
  pub enable_commands : Bool
  pub display_size : ℕ × ℕ
  pub force_keyframe : Bool
  pub pipeline_rebuild : Bool
  pub pending_resize : Option (ℕ × ℕ)
  pub stats : RuntimeStats
  pub last_cursor_message : Option Text
  pub datachannel_open_count : ℕ
  pub last_webrtc_stats_video : Option Text
  pub last_webrtc_stats_audio : Option Text
  pub last_clipboard_write_hash : Option ℕ
  pub keyframe_cache : List Bytes
  pub rtp_subscribers : Hub Bytes
  pub audio_subscribers : Hub Bytes
  pub text_subscribers : Hub Text
  pub launched : List (Text × Text)

unfoldable pub new : Config → SharedState
new c = record {
  enable_commands = c.input.enable_commands;
  display_size = (c.display.width, c.display.height);
  force_keyframe = false;
  pipeline_rebuild = false;
  pending_resize = none;
  stats = stats_default;
  last_cursor_message = none;
  datachannel_open_count = 0;
  last_webrtc_stats_video = none;
  last_webrtc_stats_audio = none;
  last_clipboard_write_hash = none;
  keyframe_cache = [];
  rtp_subscribers = none_yet;
  audio_subscribers = none_yet;
  text_subscribers = none_yet;
  launched = [];
}

unfoldable pub update_webrtc_stats : Text → Text → SharedState → SharedState
update_webrtc_stats kind payload s =
    if same kind (codes "video")
    then record s { last_webrtc_stats_video = some payload }
    else if same kind (codes "audio")
    then record s { last_webrtc_stats_audio = some payload }
    else s

-- With the value of HOME. A launch that fails is logged, too, and changes nothing more.
unfoldable pub handle_command_message : Option Text → Text → SharedState → Bool × SharedState
handle_command_message home message s =
    if not (starts_with message (codes "cmd,"))
    then (false, s)
    else if not s.enable_commands
    then (true, s)
    else (let cmd = trim (trim_start_matches message (codes "cmd,")) in
        if is_empty cmd
        then (true, s)
        else (true, record s { launched = s.launched ++ (unwrap_or home (codes "/"), cmd) ∷ [] }))

unfoldable pub update_cursor_message : Text → SharedState → SharedState
update_cursor_message message s = record s { last_cursor_message = some message }

-- The hash of the type, then of the data with that as its seed.
unfoldable pub mark_clipboard_written :
    (Bytes → ℕ → ℕ) → (Text → Bytes) → Text → Bytes → SharedState → SharedState
mark_clipboard_written xxh64 as_bytes mime bytes s = record s {
  last_clipboard_write_hash = some (xxh64 bytes (xxh64 (as_bytes mime) 0));
}

unfoldable pub set_display_size : ℕ → ℕ → SharedState → SharedState
set_display_size width height s = record s { display_size = (width, height) }

unfoldable pub resize_display : ℕ → ℕ → SharedState → SharedState
resize_display width height s =
    if s.display_size.0 == width && s.display_size.1 == height
    then s
    else record s { pending_resize = some (width, height) }

unfoldable pub take_pending_resize : SharedState → Option (ℕ × ℕ) × SharedState
take_pending_resize s = (s.pending_resize, record s { pending_resize = none })

-- The compositor's turn: src/main.rs takes the size that waits, and stores it once the display has
-- accepted it.
abbrev pub settle : (ℕ → ℕ → Bool) → Option (ℕ × ℕ) → SharedState → SharedState
settle accepts none s = s
settle accepts (some (width, height)) s =
    if accepts width height then set_display_size width height s else s

unfoldable pub apply_pending_resize : (ℕ → ℕ → Bool) → SharedState → SharedState
unfolding take_pending_resize set_display_size
apply_pending_resize accepts s =
    let (size, rest) = take_pending_resize s in settle accepts size rest

unfoldable pub update_resource_usage : ℕ → ℕ → SharedState → SharedState
update_resource_usage cpu mem s = record s {
  stats = record s.stats { cpu_percent = cpu; mem_used = mem };
}

unfoldable pub update_latency : ℕ → SharedState → SharedState
update_latency ms s = record s { stats = record s.stats { latency_ms = ms } }

unfoldable pub update_client_latency : ℕ → SharedState → SharedState
update_client_latency ms s = record s { stats = record s.stats { client_latency_ms = ms } }

unfoldable pub update_client_fps : ℕ → SharedState → SharedState
update_client_fps fps s = record s { stats = record s.stats { client_fps = fps } }

-- A 64-bit counter goes up by one.
abbrev pub bump : ℕ → ℕ
bump n = (n + 1) % 2 ^ 64

unfoldable pub record_protocol_classification : Text → SharedState → SharedState
record_protocol_classification kind s =
    let st = s.stats in
    if same kind (codes "http")
    then record s { stats = record st { proto_http = bump st.proto_http } }
    else if same kind (codes "ice_tcp")
    then record s { stats = record st { proto_ice_tcp = bump st.proto_ice_tcp } }
    else if same kind (codes "tls")
    then record s { stats = record st { proto_tls = bump st.proto_tls } }
    else record s { stats = record st { proto_unknown = bump st.proto_unknown } }

abbrev is_tcp : Option Text → Bool
is_tcp none = false
is_tcp (some t) = same t (codes "tcp")

unfoldable pub record_ice_candidate : Option Text → SharedState → SharedState
record_ice_candidate transport s =
    let st = s.stats in
    record s {
      stats = record st {
        ice_candidates_total = bump st.ice_candidates_total;
        ice_candidates_tcp =
            if is_tcp transport then bump st.ice_candidates_tcp else st.ice_candidates_tcp;
      };
    }

unfoldable pub request_keyframe : SharedState → SharedState
request_keyframe s = record s { force_keyframe = true }

unfoldable pub take_keyframe_request : SharedState → Bool × SharedState
take_keyframe_request s = (s.force_keyframe, record s { force_keyframe = false })

unfoldable pub take_pipeline_rebuild : SharedState → Bool × SharedState
take_pipeline_rebuild s = (s.pipeline_rebuild, record s { pipeline_rebuild = false })

unfoldable pub broadcast_rtp : Bytes → SharedState → SharedState
broadcast_rtp packet s = record s {
  rtp_subscribers = Subscribers.send_all packet s.rtp_subscribers;
}

unfoldable pub broadcast_audio : Bytes → SharedState → SharedState
broadcast_audio packet s = record s {
  audio_subscribers = Subscribers.send_all packet s.audio_subscribers;
}

unfoldable pub broadcast_text : Text → SharedState → SharedState
broadcast_text msg s = record s { text_subscribers = Subscribers.send_all msg s.text_subscribers }

unfoldable pub subscribe_rtp_mpsc : SharedState → SharedState
subscribe_rtp_mpsc s = record s { rtp_subscribers = add_subscriber s.rtp_subscribers }

unfoldable pub subscribe_audio_mpsc : SharedState → SharedState
subscribe_audio_mpsc s = record s { audio_subscribers = add_subscriber s.audio_subscribers }

unfoldable pub subscribe_text_mpsc : SharedState → SharedState
subscribe_text_mpsc s = record s { text_subscribers = add_subscriber s.text_subscribers }

unfoldable pub set_keyframe_cache : List Bytes → SharedState → SharedState
set_keyframe_cache packets s = record s { keyframe_cache = packets }
