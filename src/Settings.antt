-- ===== src/Settings.antt =====
-- src/runtime_settings.rs: the settings that a client changes while it is connected. Each atomic
-- field is a field of the state, and a `u32` is a number below 2 ^ 32. `serde_json` is a
-- parameter: a parser and three ways to look at a parsed value.
pub mod Bounds
pub mod Messages
use selkies_core.Prelude.{
  ℕ, ◌%◌, ◌^◌, min, max, Bool, true, false, ◌||◌, Option, none, some, Text, codes, same,
  starts_with, trim_start_matches, parse_u32, if◌then◌else◌, and_then,
}
use selkies_core.Config.{Config}

pub record RuntimeSettings : Type 0 where
  pub target_fps : ℕ
  pub max_fps : ℕ
  pub binary_clipboard_enabled : Bool
  pub video_bitrate_kbps : ℕ
  pub audio_bitrate : ℕ
  pub keyframe_interval : ℕ
  pub keyframe_request : Bool
  pub audio_bitrate_dirty : Bool

unfoldable pub new : Config → RuntimeSettings
new c = record {
  target_fps = max c.encoding.target_fps 1;
  max_fps = max c.encoding.max_fps 1;
  binary_clipboard_enabled = c.input.enable_binary_clipboard;
  video_bitrate_kbps = c.webrtc.video_bitrate;
  audio_bitrate = max c.audio.bitrate 1;
  keyframe_interval = max c.webrtc.keyframe_interval 1;
  keyframe_request = false;
  audio_bitrate_dirty = false;
}

-- `self.keyframe_request.swap(false)`.
unfoldable pub take_keyframe_request : RuntimeSettings → Bool × RuntimeSettings
take_keyframe_request s = (s.keyframe_request, record s { keyframe_request = false })

unfoldable pub set_target_fps : ℕ → RuntimeSettings → RuntimeSettings
set_target_fps fps s = record s { target_fps = min (max fps 1) s.max_fps }

unfoldable pub set_video_bitrate_kbps : ℕ → RuntimeSettings → RuntimeSettings
set_video_bitrate_kbps bitrate s = record s { video_bitrate_kbps = max bitrate 1 }

unfoldable pub set_audio_bitrate : ℕ → RuntimeSettings → RuntimeSettings
set_audio_bitrate bitrate s = record s { audio_bitrate = max bitrate 1; audio_bitrate_dirty = true }

unfoldable pub set_keyframe_interval : ℕ → RuntimeSettings → RuntimeSettings
set_keyframe_interval interval s = record s { keyframe_interval = max interval 1 }

unfoldable pub request_keyframe : RuntimeSettings → RuntimeSettings
request_keyframe s = record s { keyframe_request = true }

unfoldable pub take_audio_bitrate_update : RuntimeSettings → Option ℕ × RuntimeSettings
take_audio_bitrate_update s = (
  (if s.audio_bitrate_dirty then some s.audio_bitrate else none),
  record s { audio_bitrate_dirty = false },
)

-- `if let Some(x) = o { set(x) }`.
abbrev pub if_some {ℓ κ} : {A : Type ℓ} {S : Type κ} → Option A → (A → S → S) → S → S
if_some none set s = s
if_some (some x) set s = set x s

-- The result says whether the message was one of these.
unfoldable pub handle_simple_message : Text → RuntimeSettings → Bool × RuntimeSettings
unfolding request_keyframe set_video_bitrate_kbps set_audio_bitrate
handle_simple_message message s =
    if same message (codes "keyframe") || same message (codes "_k")
    then (true, request_keyframe s)
    else if starts_with message (codes "vb,")
    then (
      true,
      if_some (parse_u32 (trim_start_matches message (codes "vb,"))) set_video_bitrate_kbps s,
    )
    else if starts_with message (codes "ab,")
    then (true, if_some (parse_u32 (trim_start_matches message (codes "ab,"))) set_audio_bitrate s)
    else (false, s)

-- What the code uses of `serde_json`.
pub record JsonApi {ℓ} (Value : Type ℓ) : Type ℓ where
  pub from_str : Text → Option Value
  pub get : Text → Value → Option Value
  pub as_u64 : Value → Option ℕ
  pub as_bool : Value → Option Bool

-- `value.get(key).and_then(|v| v.as_u64())`, cast `as u32`.
unfoldable pub number_at {ℓ} : {Value : Type ℓ} → JsonApi Value → Value → Text → Option ℕ
number_at api value key = elim (and_then (api.get key value) api.as_u64) [
  | none ↦ none
  | some n ↦ some (n % 2 ^ 32)
]

abbrev pub flag_at {ℓ} : {Value : Type ℓ} → JsonApi Value → Value → Text → Option Bool
flag_at api value key = and_then (api.get key value) api.as_bool

abbrev pub set_binary_clipboard : Bool → RuntimeSettings → RuntimeSettings
set_binary_clipboard enabled s = record s { binary_clipboard_enabled = enabled }

-- The five settings of a document that was parsed, in the order of the source.
unfoldable pub apply_value {ℓ} :
    {Value : Type ℓ} → JsonApi Value → Value → RuntimeSettings → RuntimeSettings
unfolding number_at set_target_fps set_video_bitrate_kbps set_audio_bitrate set_keyframe_interval
apply_value api value s =
    let s1 = if_some (number_at api value (codes "framerate")) set_target_fps s in
    let s2 =
      if_some (flag_at api value (codes "enable_binary_clipboard")) set_binary_clipboard s1 in
    let s3 = if_some (number_at api value (codes "video_bitrate")) set_video_bitrate_kbps s2 in
    let s4 = if_some (number_at api value (codes "audio_bitrate")) set_audio_bitrate s3 in
    if_some (number_at api value (codes "keyframe_interval")) set_keyframe_interval s4

unfoldable pub apply_settings_json {ℓ} :
    {Value : Type ℓ} → JsonApi Value → Text → RuntimeSettings → RuntimeSettings
unfolding apply_value
apply_settings_json api json_str s = if_some (api.from_str json_str) (apply_value api) s
