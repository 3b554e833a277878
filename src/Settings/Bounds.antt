-- ===== src/Settings/Bounds.antt =====
-- src/runtime_settings.rs: the bounds that every message keeps.
use selkies_core.Prelude.{
  ℕ, ◌≤◌, ◌<◌, ◌≡◌, Bool, true, List, [], ◌∷◌, Option, none, some, Text, codes, parse_u32, OnSome,
  from_str_radix-bound, arith, trim_start_matches, and_then, same, starts_with, Option-cases,
  Bool-cases, inl, inr, ◌||◌,
}
use selkies_core.Config.{Config}
use selkies_core.Config.Validate.{IsValid}
use selkies_core.Settings.{
  RuntimeSettings, JsonApi, new, take_keyframe_request, set_target_fps, set_video_bitrate_kbps,
  set_audio_bitrate, set_keyframe_interval, request_keyframe, take_audio_bitrate_update,
  handle_simple_message, apply_settings_json, apply_value, number_at, flag_at, if_some,
  set_binary_clipboard,
}

abbrev pub IsU32 : ℕ → Type 0
IsU32 n = n ≤ 4294967295

pub record InBounds (s : RuntimeSettings) : Type 0 where
  pub fps_positive : 0 < s.target_fps
  pub fps_capped : s.target_fps ≤ s.max_fps
  pub max_u32 : IsU32 s.max_fps
  pub video_positive : 0 < s.video_bitrate_kbps
  pub video_u32 : IsU32 s.video_bitrate_kbps
  pub audio_positive : 0 < s.audio_bitrate
  pub audio_u32 : IsU32 s.audio_bitrate
  pub interval_positive : 0 < s.keyframe_interval
  pub interval_u32 : IsU32 s.keyframe_interval

-- The fields of the configuration that the settings start from are `u32`s.
pub record FitsU32 (c : Config) : Type 0 where
  pub max_fps : IsU32 c.encoding.max_fps
  pub video : IsU32 c.webrtc.video_bitrate
  pub audio : IsU32 c.audio.bitrate
  pub interval : IsU32 c.webrtc.keyframe_interval

-- One call of the settings' interface.
pub data Call : Type 0 where
  simple : Text → Call
  json : Text → Call
  set_fps : (n : ℕ) → IsU32 n → Call
  set_interval : (n : ℕ) → IsU32 n → Call
  keyframe : Call
  take_keyframe : Call
  take_audio : Call

unfoldable pub call {ℓ} :
    {Value : Type ℓ} → JsonApi Value → Call → RuntimeSettings → RuntimeSettings
call api (Call.simple m) s = (handle_simple_message m s).1
call api (Call.json t) s = apply_settings_json api t s
call api (Call.set_fps n h) s = set_target_fps n s
call api (Call.set_interval n h) s = set_keyframe_interval n s
call api Call.keyframe s = request_keyframe s
call api Call.take_keyframe s = (take_keyframe_request s).1
call api Call.take_audio s = (take_audio_bitrate_update s).1

unfoldable pub calls {ℓ} :
    {Value : Type ℓ} → JsonApi Value → List Call → RuntimeSettings → RuntimeSettings
calls api [] s = s
calls api (c ∷ cs) s = calls api cs (call api c s)

pub set_target_fps-InBounds :
    (n : ℕ) (s : RuntimeSettings) → InBounds s → InBounds (set_target_fps n s)
unfolding set_target_fps
set_target_fps-InBounds n s b = ground arith

set_video-InBounds :
    (n : ℕ) → IsU32 n → (s : RuntimeSettings) → InBounds s → InBounds (set_video_bitrate_kbps n s)
unfolding set_video_bitrate_kbps
set_video-InBounds n h s b = ground arith

set_audio-InBounds :
    (n : ℕ) → IsU32 n → (s : RuntimeSettings) → InBounds s → InBounds (set_audio_bitrate n s)
unfolding set_audio_bitrate
set_audio-InBounds n h s b = ground arith

set_interval-InBounds :
    (n : ℕ) → IsU32 n → (s : RuntimeSettings) → InBounds s → InBounds (set_keyframe_interval n s)
unfolding set_keyframe_interval
set_interval-InBounds n h s b = ground arith

-- A setter that keeps the bounds keeps them when its value may be missing.
if_some-InBounds {ℓ} :
    {A : Type ℓ} (P : A → Type 0) (o : Option A) (set : A → RuntimeSettings → RuntimeSettings)
    → OnSome P o
    → ((a : A) → P a → (s : RuntimeSettings) → InBounds s → InBounds (set a s))
    → (s : RuntimeSettings) → InBounds s
    → InBounds (if_some o set s)
if_some-InBounds P none set p keeps s b = b
if_some-InBounds P (some a) set p keeps s b = keeps a p s b

number_at-IsU32 {ℓ} :
    {Value : Type ℓ} (api : JsonApi Value) (value : Value) (key : Text)
    → OnSome IsU32 (number_at api value key)
unfolding number_at
number_at-IsU32 api value key = elim (Option-cases (and_then (api.get key value) api.as_u64)) [
  | inl e ↦ rw (OnSome, e) tt
  | inr (n, e) ↦ rw (OnSome, e) (omega arith)
]

any_flag : (o : Option Bool) → OnSome (λ on. Unit {0}) o
any_flag none = tt
any_flag (some on) = tt

apply_value-InBounds {ℓ} :
    {Value : Type ℓ} (api : JsonApi Value) (value : Value) (s : RuntimeSettings)
    → InBounds s
    → InBounds (apply_value api value s)
unfolding apply_value
apply_value-InBounds api value s b =
    if_some-InBounds IsU32 _ set_keyframe_interval (number_at-IsU32 api value _)
      set_interval-InBounds _
      (if_some-InBounds IsU32 _ set_audio_bitrate (number_at-IsU32 api value _) set_audio-InBounds _
        (if_some-InBounds IsU32 _ set_video_bitrate_kbps (number_at-IsU32 api value _)
          set_video-InBounds _
          (if_some-InBounds (λ on. Unit {0}) (flag_at api value (codes "enable_binary_clipboard"))
            set_binary_clipboard (any_flag _) (λ on _ t c. ground arith) _
            (if_some-InBounds IsU32 _ set_target_fps (number_at-IsU32 api value _)
              (λ n _. set_target_fps-InBounds n) s b))))

parse_u32-IsU32 : (t : Text) → OnSome IsU32 (parse_u32 t)
parse_u32-IsU32 t = from_str_radix-bound 10 4294967295 t

pub handle_simple_message-InBounds :
    (m : Text) (s : RuntimeSettings) → InBounds s → InBounds (handle_simple_message m s).1
unfolding handle_simple_message
handle_simple_message-InBounds m s b =
    let asked : Bool = same m (codes "keyframe") || same m (codes "_k") in
    let vb = codes "vb," in
    let ab = codes "ab," in
    elim (Bool-cases asked) [
      | inl e ↦ rw e (ground arith)
      | inr e ↦ rw e (elim (Bool-cases (starts_with m vb)) [
        | inl v ↦ rw v (
            if_some-InBounds IsU32 _ set_video_bitrate_kbps
              (parse_u32-IsU32 (trim_start_matches m vb)) set_video-InBounds s b)
        | inr v ↦ rw v (elim (Bool-cases (starts_with m ab)) [
          | inl a ↦ rw a (
              if_some-InBounds IsU32 _ set_audio_bitrate (parse_u32-IsU32 (trim_start_matches m ab))
                set_audio-InBounds s b)
          | inr a ↦ rw a b
        ])
      ])
    ]

pub apply_settings_json-InBounds {ℓ} :
    {Value : Type ℓ} (api : JsonApi Value) (t : Text) (s : RuntimeSettings)
    → InBounds s
    → InBounds (apply_settings_json api t s)
unfolding apply_settings_json
apply_settings_json-InBounds api t s b = elim (Option-cases (api.from_str t)) [
  | inl e ↦ rw e b
  | inr (v, e) ↦ rw e (apply_value-InBounds api v s b)
]

pub new-InBounds {ℓ} :
    {Addr : Type ℓ} (parse : Text → Option Addr) (c : Config)
    → IsValid parse c
    → c.webrtc.enabled ≡ true
    → FitsU32 c
    → InBounds (new c)
unfolding new
new-InBounds parse c v on f =
    let fps = v.fps in
    let w = (v.webrtc on).positive in
    record {
      fps_positive = omega arith;
      fps_capped = omega arith;
      max_u32 = let h = f.max_fps in omega arith;
      video_positive = w;
      video_u32 = f.video;
      audio_positive = omega arith;
      audio_u32 = let h = f.audio in omega arith;
      interval_positive = omega arith;
      interval_u32 = let h = f.interval in omega arith;
    }
