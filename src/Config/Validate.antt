-- ===== src/Config/Validate.antt =====
-- src/config/mod.rs: what a configuration that passes `validate` guarantees.
use selkies_core.Prelude.{
  ap, ℕ, ◌<◌, ◌≤◌, ◌≡◌, ◌⊎◌, inl, inr, ◌↔◌, Bool, true, false, not, refl, ◌||◌, ◌&&◌, List, [], ◌∷◌,
  Option, none, some, Text, codes, trim, to_ascii_lowercase, same, same_iff, Option-cases, is_empty,
  is_some, ◌==◌, All, Result, ok, err, ◌>>◌, ◌>>=◌, fail_if, ltb, arith, Bool-cases, >>-eq-ok,
  fail_if-eq-ok,
}
use selkies_core.Config.{
  Config, AudioConfig, WebRtcConfig, validate, check_transfers, check_audio, check_webrtc,
  is_transfer, bad_candidate, config_default,
}

pub record AudioOk (a : AudioConfig) : Type 0 where
  pub rate : 0 < a.sample_rate
  pub one : 0 < a.channels
  pub two : a.channels ≤ 2
  pub bits : 0 < a.bitrate

pub record WebRtcOk (w : WebRtcConfig) : Type 0 where
  pub positive : 0 < w.video_bitrate
  pub above_min : w.video_bitrate_min ≤ w.video_bitrate
  pub below_max : w.video_bitrate ≤ w.video_bitrate_max
  pub interval : 0 < w.keyframe_interval

-- An entry of `file_transfers`, trimmed and in lower case: nothing, or one of three words.
pub data IsTransfer (entry : Text) : Type 0 where
  blank : trim entry ≡ [] → IsTransfer entry
  no_transfer : to_ascii_lowercase (trim entry) ≡ codes "none" → IsTransfer entry
  upload : to_ascii_lowercase (trim entry) ≡ codes "upload" → IsTransfer entry
  download : to_ascii_lowercase (trim entry) ≡ codes "download" → IsTransfer entry

-- There is no candidate, or it is read as an address.
pub data IsCandidate {ℓ} {Addr : Type ℓ} (parse : Text → Option Addr) (o : Option Text)
    : Type ℓ where
  no_candidate : o ≡ none → IsCandidate parse o
  address : (t : Text) (a : Addr) → o ≡ some t → parse t ≡ some a → IsCandidate parse o

-- What the program may rely on after start-up.
pub record IsValid {ℓ} {Addr : Type ℓ} (parse : Text → Option Addr) (c : Config) : Type ℓ where
  pub width : 0 < c.display.width
  pub height : 0 < c.display.height
  pub fps : c.encoding.target_fps ≤ c.encoding.max_fps
  pub password : c.http.basic_auth_enabled ≡ true → is_empty c.http.basic_auth_password ≡ false
  pub transfers : All IsTransfer c.input.file_transfers
  pub tcp_only : c.webrtc.tcp_only ≡ true
  pub candidate : IsCandidate parse c.webrtc.public_candidate
  pub audio : c.audio.enabled ≡ true → AudioOk c.audio
  pub webrtc : c.webrtc.enabled ≡ true → WebRtcOk c.webrtc

lowercase-empty : (t : Text) → is_empty (to_ascii_lowercase t) ≡ true → t ≡ []
unfolding to_ascii_lowercase
lowercase-empty [] h = refl
lowercase-empty (c ∷ t) h = cc

is_transfer-IsTransfer : (entry : Text) → is_transfer entry ≡ true → IsTransfer entry
unfolding is_transfer
is_transfer-IsTransfer entry h =
    let value = to_ascii_lowercase (trim entry) in
    elim (Bool-cases (is_empty value)) [
      | inl e ↦ blank (lowercase-empty (trim entry) e)
      | inr h0 ↦ elim (Bool-cases (same value (codes "none"))) [
        | inl e ↦ no_transfer ((same_iff _ _).0 e)
        | inr h1 ↦ elim (Bool-cases (same value (codes "upload"))) [
          | inl e ↦ upload ((same_iff _ _).0 e)
          | inr h2 ↦ download ((same_iff _ _).0 (rw (h0, h1, h2) at h))
        ]
      ]
    ]

IsTransfer-is_transfer : (entry : Text) → IsTransfer entry → is_transfer entry ≡ true
unfolding is_transfer same to_ascii_lowercase
IsTransfer-is_transfer entry (blank e) = rw e refl
IsTransfer-is_transfer entry (no_transfer e) = rw e refl
IsTransfer-is_transfer entry (upload e) = rw e refl
IsTransfer-is_transfer entry (download e) = rw e refl

no_address {ℓ} :
    {Addr : Type ℓ} (parse : Text → Option Addr) (t : Text)
    → parse t ≡ none
    → ¬ IsCandidate parse (some t)
no_address parse t e (no_candidate h) = cc
no_address parse t e (address t' a h there) = let at : t ≡ t' = cc in cc (ap parse at)

bad_candidate-IsCandidate {ℓ} :
    {Addr : Type ℓ} (parse : Text → Option Addr) (o : Option Text)
    → (bad_candidate parse o ≡ false) ↔ IsCandidate parse o
bad_candidate-IsCandidate parse none = ((λ h. no_candidate refl), λ i. refl)
bad_candidate-IsCandidate parse (some t) = elim (Option-cases (parse t)) [
  | inl e ↦ (
    (λ h. let bad : bad_candidate parse (some t) ≡ true = rw e refl in cc),
    λ i. absurd (no_address parse t e i),
  )
  | inr (a, e) ↦ ((λ h. address t a refl e), λ i. rw e refl)
]

check_transfers-ok : (es : List Text) → (check_transfers es ≡ ok tt) ↔ All IsTransfer es
unfolding check_transfers
check_transfers-ok [] = ((λ h. tt), (λ h. refl))
check_transfers-ok (e ∷ es) = (
  (λ h.
      let entry : is_transfer e ≡ true = ground arith in
      (is_transfer-IsTransfer e entry, (check_transfers-ok es).0 (ground arith))),
  (λ v.
      let entry : is_transfer e ≡ true = IsTransfer-is_transfer e v.0 in
      let rest = (check_transfers-ok es).1 v.1 in ground arith),
)

check_audio-ok : (a : AudioConfig) → check_audio a ≡ ok tt → a.enabled ≡ true → AudioOk a
unfolding check_audio
check_audio-ok a h on = record {
  rate = ground arith;
  one = ground arith;
  two = ground arith;
  bits = ground arith;
}

ok-check_audio : (a : AudioConfig) → (a.enabled ≡ true → AudioOk a) → check_audio a ≡ ok tt
unfolding check_audio
ok-check_audio a v = elim (Bool-cases a.enabled) [
  | inr off ↦ ground arith
  | inl on ↦
      let r = (v on).rate in
      let o = (v on).one in let t = (v on).two in let b = (v on).bits in ground arith
]

check_webrtc-ok : (w : WebRtcConfig) → check_webrtc w ≡ ok tt → w.enabled ≡ true → WebRtcOk w
unfolding check_webrtc
check_webrtc-ok w h on = record {
  positive = ground arith;
  above_min = ground arith;
  below_max = ground arith;
  interval = ground arith;
}

ok-check_webrtc : (w : WebRtcConfig) → (w.enabled ≡ true → WebRtcOk w) → check_webrtc w ≡ ok tt
unfolding check_webrtc
ok-check_webrtc w v = elim (Bool-cases w.enabled) [
  | inr off ↦ ground arith
  | inl on ↦
      let p = (v on).positive in
      let a = (v on).above_min in
      let b = (v on).below_max in let i = (v on).interval in ground arith
]

-- `validate` accepts a configuration exactly when it is valid: its sizes are not 0, its frame rate is
-- at most the maximum, the numbers of audio and of WebRTC are in their ranges where these are on, a
-- password stands where authentication is on, each transfer direction is blank or one of none,
-- upload and download in any case of letters, only TCP is used, and the public candidate, if there
-- is one, is read as an address.
pub validate_iff {ℓ} :
    {Addr : Type ℓ} (parse : Text → Option Addr) (c : Config)
    → (validate parse c ≡ ok tt) ↔ IsValid parse c
unfolding validate
validate_iff parse c = (
  (λ h.
      let (h7, w) = (>>-eq-ok _ _).0 h in
      let (h6, a) = (>>-eq-ok _ _).0 h7 in
      let (h5, b) = (>>-eq-ok _ _).0 h6 in
      let (h4, t) = (>>-eq-ok _ _).0 h5 in
      let (h3, f) = (>>-eq-ok _ _).0 h4 in
      let (h2, p) = (>>-eq-ok _ _).0 h3 in
      let (h1, e) = (>>-eq-ok _ _).0 h2 in
      let d : (c.display.width == 0 || c.display.height == 0) ≡ false = (fail_if-eq-ok _ _).0 h1 in
      let e' : ltb c.encoding.max_fps c.encoding.target_fps ≡ false = (fail_if-eq-ok _ _).0 e in
      let p' : (c.http.basic_auth_enabled && is_empty c.http.basic_auth_password) ≡ false =
        (fail_if-eq-ok _ _).0 p in
      let t' : not c.webrtc.tcp_only ≡ false = (fail_if-eq-ok _ _).0 t in
      record {
        width = ground arith;
        height = ground arith;
        fps = ground arith;
        password = λ on. ground arith;
        transfers = (check_transfers-ok c.input.file_transfers).0 f;
        tcp_only = ground arith;
        candidate =
            (bad_candidate-IsCandidate parse c.webrtc.public_candidate).0 ((fail_if-eq-ok _ _).0 b);
        audio = check_audio-ok c.audio a;
        webrtc = check_webrtc-ok c.webrtc w;
      }),
  (λ v.
      let w = v.width in
      let h = v.height in
      let f = v.fps in
      let p = v.password in
      let t = v.tcp_only in
      let d : (c.display.width == 0 || c.display.height == 0) ≡ false = ground arith in
      let e : ltb c.encoding.max_fps c.encoding.target_fps ≡ false = ground arith in
      let p' : (c.http.basic_auth_enabled && is_empty c.http.basic_auth_password) ≡ false =
        ground arith in
      let t' : not c.webrtc.tcp_only ≡ false = ground arith in
      let fs = (check_transfers-ok c.input.file_transfers).1 v.transfers in
      let a = ok-check_audio c.audio v.audio in
      let wr = ok-check_webrtc c.webrtc v.webrtc in
      let b = (bad_candidate-IsCandidate parse c.webrtc.public_candidate).1 v.candidate in
      rw (d, e, p', fs, t', b, a, wr) refl),
)

accepted {ℓ} :
    {Addr : Type ℓ} (parse : Text → Option Addr) (pulseaudio : Bool)
    → validate parse (config_default pulseaudio) ≡ ok tt
unfolding validate config_default selkies_core.Prelude.to_ascii_lowercase selkies_core.Prelude.trim
    selkies_core.Prelude.same
accepted parse true = refl
accepted parse false = refl

-- The default configuration is valid, in every build and with every parser of addresses.
pub config_default-IsValid {ℓ} :
    {Addr : Type ℓ} (parse : Text → Option Addr) (pulseaudio : Bool)
    → IsValid parse (config_default pulseaudio)
config_default-IsValid parse pulseaudio =
    (validate_iff parse (config_default pulseaudio)).0 (accepted parse pulseaudio)
