-- ===== src/Ui.antt =====
-- src/config/ui.rs: the user interface's settings, from the configuration and the environment. The
-- environment is a parameter: the value of each variable that is set and is valid text.
pub mod Ranges
use selkies_core.Prelude.{
  ℕ, ◌<◌, max, Bool, true, false, not, ◌&&◌, ◌||◌, List, [], ◌∷◌, map, reverse, Option, none, some,
  Text, codes, same, trim, to_ascii_lowercase, is_empty, split, split_once, parse_u32, ltb, ◌==◌,
  if◌then◌else◌, is_some, and_then, length,
}
use selkies_core.Config.{Config}

pub record UiVisibility : Type 0 where
  pub show_sidebar : Bool
  pub show_video_settings : Bool
  pub show_screen_settings : Bool
  pub show_audio_settings : Bool
  pub show_stats : Bool
  pub show_clipboard : Bool

pub record UiBool : Type 0 where
  pub value : Bool
  pub locked : Bool

pub record UiEnum : Type 0 where
  pub value : Text
  pub options : List Text
  pub locked : Bool

pub record UiRangeU32 : Type 0 where
  pub value : ℕ
  pub min : ℕ
  pub max : ℕ
  pub locked : Bool

pub record UiValueU32 : Type 0 where
  pub value : ℕ
  pub locked : Bool

pub record UiVideo : Type 0 where
  pub encoder : UiEnum
  pub framerate : UiRangeU32

pub record UiScreen : Type 0 where
  pub manual_resolution : UiBool
  pub width : UiValueU32
  pub height : UiValueU32

pub record UiAudio : Type 0 where
  pub enabled : UiBool
  pub bitrate : UiRangeU32

pub record UiInput : Type 0 where
  pub mouse : UiBool
  pub keyboard : UiBool

pub record UiToggle : Type 0 where
  pub enabled : Bool

pub record UiConfig : Type 0 where
  pub version : Text
  pub ui : UiVisibility
  pub video : UiVideo
  pub screen : UiScreen
  pub audio : UiAudio
  pub input : UiInput
  pub clipboard : UiToggle
  pub stats : UiToggle

abbrev pub Env : Type 0
Env = Text → Option Text

-- `raw.rsplit_once(c)`: around the last `c`.
unfoldable pub rsplit_once : ℕ → Text → Option (Text × Text)
rsplit_once c raw = elim (split_once c (reverse raw)) [
  | none ↦ none
  | some (b, a) ↦ some (reverse a, reverse b)
]

-- The value, and whether `|locked` stands behind it.
unfoldable pub split_locked : Text → Text × Bool
unfolding rsplit_once
split_locked raw = elim (rsplit_once 124 raw) [
  | none ↦ (raw, false)
  | some (value, suffix) ↦ if same suffix (codes "locked") then (value, true) else (raw, false)
]

abbrev pub bool_of : Text → Bool → Bool
bool_of raw default =
    if same raw (codes "true") || same raw (codes "1")
    then true
    else if same raw (codes "false") || same raw (codes "0")
    then false
    else default

unfoldable pub env_bool : Env → Text → Bool → UiBool
unfolding split_locked
env_bool env key default_value = elim (env key) [
  | none ↦ record { value = default_value; locked = false }
  | some raw ↦ record {
    value = bool_of (to_ascii_lowercase (split_locked raw).0) default_value;
    locked = (split_locked raw).1;
  }
]

-- `v.clamp(lo, hi)`, which the source calls with `lo` at most `hi`.
abbrev pub clamp : ℕ → ℕ → ℕ → ℕ
clamp v lo hi = if ltb v lo then lo else if ltb hi v then hi else v

-- A range written `a-b`, its ends put in order, or one number.
unfoldable pub parse_range_u32 : Text → Option (ℕ × ℕ × Bool)
parse_range_u32 raw = elim (split_once 45 raw) [
  | some (min_raw, max_raw) ↦ and_then (parse_u32 (trim min_raw)) λ lo.
      and_then (parse_u32 (trim max_raw))
        λ hi. if ltb hi lo then some (hi, lo, true) else some (lo, hi, true)
  | none ↦ and_then (parse_u32 (trim raw)) λ value. some (value, value, false)
]

-- The range that a variable's value gives, in place of `result`.
unfoldable pub ranged : UiRangeU32 → Bool → Option (ℕ × ℕ × Bool) → UiRangeU32
ranged result hint none = result
ranged result hint (some (lo, hi, is_range)) = record {
  value = if is_range then clamp result.value lo hi else lo;
  min = lo;
  max = hi;
  locked = hint || not is_range;
}

unfoldable pub env_range_u32 : Env → Text → ℕ → ℕ → ℕ → UiRangeU32
unfolding split_locked parse_range_u32 ranged
env_range_u32 env key default_value default_min default_max =
    let result : UiRangeU32 = record {
      value = clamp default_value default_min default_max;
      min = default_min;
      max = default_max;
      locked = false;
    } in
    elim (env key) [
      | none ↦ result
      | some raw ↦ ranged result (split_locked raw).1 (parse_range_u32 (split_locked raw).0)
    ]

abbrev pub keep {ℓ} : {A : Type ℓ} → (A → Bool) → List A → List A
keep test [] = []
keep test (x ∷ xs) = if test x then x ∷ keep test xs else keep test xs

abbrev pub only_jpeg : UiEnum
only_jpeg = record { value = codes "jpeg"; options = codes "jpeg" ∷ []; locked = true }

-- The list of a variable's value: without jpeg in it, the default.
unfoldable pub encoders : Bool → List Text → UiEnum
encoders hint options =
    let jpegs = keep (λ o. same o (codes "jpeg")) options in
    if is_empty jpegs
    then only_jpeg
    else record { value = codes "jpeg"; options = jpegs; locked = hint || length jpegs == 1 }

unfoldable pub env_encoder : Env → Text → UiEnum
unfolding split_locked encoders
env_encoder env key = elim (env key) [
  | none ↦ only_jpeg
  | some raw ↦
      encoders (split_locked raw).1
        (keep (λ s. not (is_empty s)) (map trim (split 44 (split_locked raw).0)))
]

-- `if let Ok(raw) = env::var(..) { if let Ok(value) = raw.parse::<u32>() { .. } }`.
abbrev pub env_u32 : Env → Text → Option ℕ
env_u32 env key = and_then (env key) parse_u32

abbrev pub or_number : Option ℕ → ℕ → ℕ
or_number none d = d
or_number (some n) d = n

abbrev pub is_true : Option Text → Bool
is_true none = false
is_true (some raw) =
    let value = to_ascii_lowercase (split_locked raw).0 in
    same value (codes "true") || same value (codes "1")

unfoldable pub env_manual_resolution : Env → ℕ → ℕ → UiBool × UiValueU32 × UiValueU32
unfolding split_locked
env_manual_resolution env default_width default_height =
    let w = env_u32 env (codes "IVNC_MANUAL_WIDTH") in
    let h = env_u32 env (codes "IVNC_MANUAL_HEIGHT") in
    let mode = is_true (env (codes "IVNC_IS_MANUAL_RESOLUTION_MODE")) in
    let enabled = is_some w || is_some h || mode in
    let unset =
      mode
      && not (is_some (env (codes "IVNC_MANUAL_WIDTH")))
      && not (is_some (env (codes "IVNC_MANUAL_HEIGHT"))) in
    (
      record { value = enabled; locked = enabled },
      record { value = if unset then 1024 else or_number w default_width; locked = enabled },
      record { value = if unset then 768 else or_number h default_height; locked = enabled },
    )

unfoldable pub from_env : Env → Config → UiConfig
unfolding env_bool env_range_u32 env_encoder env_manual_resolution
from_env env c =
    let (manual, width, height) = env_manual_resolution env c.display.width c.display.height in
    record {
      version = codes "1";
      ui = record {
        show_sidebar = (env_bool env (codes "IVNC_UI_SHOW_SIDEBAR") true).value;
        show_video_settings =
            (env_bool env (codes "IVNC_UI_SIDEBAR_SHOW_VIDEO_SETTINGS") true).value;
        show_screen_settings =
            (env_bool env (codes "IVNC_UI_SIDEBAR_SHOW_SCREEN_SETTINGS") true).value;
        show_audio_settings =
            (env_bool env (codes "IVNC_UI_SIDEBAR_SHOW_AUDIO_SETTINGS") true).value;
        show_stats = (env_bool env (codes "IVNC_UI_SIDEBAR_SHOW_STATS") true).value;
        show_clipboard = (env_bool env (codes "IVNC_UI_SIDEBAR_SHOW_CLIPBOARD") true).value;
      };
      video = record {
        encoder = env_encoder env (codes "IVNC_ENCODER");
        framerate =
            env_range_u32 env (codes "IVNC_FRAMERATE") c.encoding.target_fps 1
              (max c.encoding.max_fps 1);
      };
      screen = record { manual_resolution = manual; width = width; height = height };
      audio = record {
        enabled = env_bool env (codes "IVNC_AUDIO_ENABLED") c.audio.enabled;
        bitrate = env_range_u32 env (codes "IVNC_AUDIO_BITRATE") c.audio.bitrate 64000 320000;
      };
      input = record {
        mouse = env_bool env (codes "IVNC_MOUSE_ENABLED") c.input.enable_mouse;
        keyboard = env_bool env (codes "IVNC_KEYBOARD_ENABLED") c.input.enable_keyboard;
      };
      clipboard = record {
        enabled = (env_bool env (codes "IVNC_CLIPBOARD_ENABLED") c.input.enable_clipboard).value;
      };
      stats = record { enabled = true };
    }
