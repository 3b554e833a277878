-- ===== src/Settings/Messages.antt =====
-- src/runtime_settings.rs: what each message changes, and what it leaves alone.
use selkies_core.Prelude.{
  ℕ, ◌<◌, ◌^◌, min, max, ◌≡◌, refl, Bool, true, false, [], ◌∷◌, ◌++◌, Option, none, some, Text,
  codes, show, show-head, parse_u32, from_str_radix-show, arith, trim_start_matches,
  trim_start_matches-append, same, starts_with, strip_prefix,
}
use selkies_core.Settings.{
  RuntimeSettings, JsonApi, take_keyframe_request, set_target_fps, set_video_bitrate_kbps,
  set_audio_bitrate, set_keyframe_interval, request_keyframe, take_audio_bitrate_update,
  handle_simple_message, apply_settings_json, apply_value, number_at, flag_at, if_some,
  set_binary_clipboard,
}

-- A setting after a document: the new value, if the document has one.
abbrev pub updated {ℓ κ} : {A : Type ℓ} {B : Type κ} → Option A → (A → B) → B → B
updated none f old = old
updated (some a) f old = f a

five :
    (fps : Option ℕ) (binary : Option Bool) (video audio interval : Option ℕ) (s : RuntimeSettings)
    → if_some interval set_keyframe_interval (
        if_some audio set_audio_bitrate (
          if_some video set_video_bitrate_kbps
            (if_some binary set_binary_clipboard (if_some fps set_target_fps s))))
      ≡ record s {
        target_fps = updated fps (λ n. min (max n 1) s.max_fps) s.target_fps;
        binary_clipboard_enabled = updated binary (λ on. on) s.binary_clipboard_enabled;
        video_bitrate_kbps = updated video (λ n. max n 1) s.video_bitrate_kbps;
        audio_bitrate = updated audio (λ n. max n 1) s.audio_bitrate;
        audio_bitrate_dirty = updated audio (λ n. true) s.audio_bitrate_dirty;
        keyframe_interval = updated interval (λ n. max n 1) s.keyframe_interval;
      }
unfolding set_target_fps set_video_bitrate_kbps set_audio_bitrate set_keyframe_interval
five fps binary video audio interval s = ground arith

strip_prefix-show : (c n : ℕ) (p : Text) → 57 < c → strip_prefix (show n) (c ∷ p) ≡ none
unfolding strip_prefix
strip_prefix-show c n p h = let (d, s, e, _, top) = show-head n in rw e (ground arith)

-- A client that asks for a video bitrate of `n` kbps, in the message `vb,n`, gets it, and nothing
-- else changes; 0 counts as 1. The same holds of the audio bitrate and `ab,n`, which the audio
-- encoder is also told of.
pub handle_simple_message-bitrate :
    (n : ℕ) (s : RuntimeSettings)
    → n < 2 ^ 32
    → (handle_simple_message (codes "vb," ++ show n) s
        ≡ (true, record s { video_bitrate_kbps = max n 1 }))
      × (handle_simple_message (codes "ab," ++ show n) s
          ≡ (true, record s { audio_bitrate = max n 1; audio_bitrate_dirty = true }))
unfolding handle_simple_message same starts_with strip_prefix set_video_bitrate_kbps
    set_audio_bitrate
handle_simple_message-bitrate n s h =
    let vb = codes "vb," in
    let ab = codes "ab," in
    let number : parse_u32 (show n) ≡ some n = from_str_radix-show _ n (omega arith) in
    let v : trim_start_matches (vb ++ show n) vb ≡ show n =
      trim_start_matches-append 118 (98 ∷ 44 ∷ []) (show n)
        (strip_prefix-show 118 n (98 ∷ 44 ∷ []) (omega arith)) in
    let a : trim_start_matches (ab ++ show n) ab ≡ show n =
      trim_start_matches-append 97 (98 ∷ 44 ∷ []) (show n)
        (strip_prefix-show 97 n (98 ∷ 44 ∷ []) (omega arith)) in
    (rw (v, number) refl, rw (a, number) refl)

-- After a SETTINGS document that parses, each number of it is a `u32` cut off at 32 bits and
-- clamped, a number or flag that it lacks keeps its former value, the audio encoder is told when
-- the document names an audio bitrate, and a waiting keyframe request is kept. A document that
-- does not parse changes nothing.
pub apply_settings_json_lem {ℓ} :
    {Value : Type ℓ} (api : JsonApi Value) (text : Text) (value : Value) (s : RuntimeSettings)
    → (api.from_str text ≡ none → apply_settings_json api text s ≡ s)
      × (api.from_str text ≡ some value
          → apply_settings_json api text s ≡ record s {
            target_fps =
                updated
                  (number_at api value (codes "framerate"))
                  (λ n. min (max n 1) s.max_fps)
                  s.target_fps;
            binary_clipboard_enabled =
                updated
                  (flag_at api value (codes "enable_binary_clipboard"))
                  (λ on. on)
                  s.binary_clipboard_enabled;
            video_bitrate_kbps =
                updated
                  (number_at api value (codes "video_bitrate"))
                  (λ n. max n 1)
                  s.video_bitrate_kbps;
            audio_bitrate =
                updated
                  (number_at api value (codes "audio_bitrate"))
                  (λ n. max n 1)
                  s.audio_bitrate;
            audio_bitrate_dirty =
                updated
                  (number_at api value (codes "audio_bitrate"))
                  (λ n. true)
                  s.audio_bitrate_dirty;
            keyframe_interval =
                updated
                  (number_at api value (codes "keyframe_interval"))
                  (λ n. max n 1)
                  s.keyframe_interval;
          })
unfolding apply_settings_json apply_value
apply_settings_json_lem api text value s = (
  (λ e. rw e refl),
  (λ e. rw e (
      five (number_at api value (codes "framerate"))
        (flag_at api value (codes "enable_binary_clipboard"))
        (number_at api value (codes "video_bitrate")) (number_at api value (codes "audio_bitrate"))
        (number_at api value (codes "keyframe_interval")) s)),
)

-- A new audio bitrate is handed out once: the first `take_audio_bitrate_update` after it is set
-- gives it, and the next gives nothing. A keyframe request is handed out once, too.
pub take_once :
    (n : ℕ) (s : RuntimeSettings)
    → (let (first, s1) = take_audio_bitrate_update (set_audio_bitrate n s) in
        (first ≡ some (max n 1)) × ((take_audio_bitrate_update s1).0 ≡ none))
      × (let (asked, s2) = take_keyframe_request (request_keyframe s) in
          (asked ≡ true) × ((take_keyframe_request s2).0 ≡ false))
unfolding take_audio_bitrate_update set_audio_bitrate take_keyframe_request request_keyframe
take_once n s = ((refl, refl), (refl, refl))
