-- ===== src/Config.antt =====
-- src/config/mod.rs: the settings file's record, its defaults and `validate`; src/args.rs and
-- `apply_cli_overrides` of src/main.rs, which lays the command line over it. The standard
-- library's parser of socket addresses is a parameter, and so is the build's choice of the
-- `pulseaudio` feature. `mouse_sensitivity` is its IEEE bit pattern. `mcp_stdio` of the arguments,
-- which only a build with the `mcp` feature has, is left out.
pub mod Validate
pub mod Overrides
use selkies_core.Prelude.{
  ℕ, ◌<◌, Bool, true, false, not, ◌&&◌, ◌||◌, List, [], ◌∷◌, Option, none, some, map, Text, codes,
  same, trim, to_ascii_lowercase, is_empty, split, ltb, ◌==◌, if◌then◌else◌, Result, ok, err, ◌>>◌,
  ◌>>=◌, fail_if, unwrap_or, is_some,
}

pub data VideoCodec : Type 0 where
  h264 : VideoCodec
  vp8 : VideoCodec
  vp9 : VideoCodec
  av1 : VideoCodec

pub data HardwareEncoder : Type 0 where
  auto : HardwareEncoder
  software : HardwareEncoder
  vaapi : HardwareEncoder
  nvenc : HardwareEncoder
  qsv : HardwareEncoder

pub record ServerConfig : Type 0 where
  pub foreground : Bool
  pub pidfile : Text
  pub user : Option Text
  pub group : Option Text

pub record DisplayConfig : Type 0 where
  pub width : ℕ
  pub height : ℕ
  pub refresh_rate : ℕ

pub record HttpConfig : Type 0 where
  pub host : Text
  pub port : ℕ
  pub cors_origin : Option Text
  pub basic_auth_enabled : Bool
  pub basic_auth_user : Text
  pub basic_auth_password : Text
  pub tls : Bool

pub record EncodingConfig : Type 0 where
  pub target_fps : ℕ
  pub max_fps : ℕ

pub record InputConfig : Type 0 where
  pub enable_keyboard : Bool
  pub enable_mouse : Bool
  pub enable_clipboard : Bool
  pub enable_binary_clipboard : Bool
  pub enable_commands : Bool
  pub file_transfers : List Text
  pub upload_dir : Text
  pub mouse_sensitivity : ℕ

pub record AudioConfig : Type 0 where
  pub enabled : Bool
  pub sample_rate : ℕ
  pub channels : ℕ
  pub bitrate : ℕ

pub record WebRtcConfig : Type 0 where
  pub enabled : Bool
  pub tcp_only : Bool
  pub public_candidate : Option Text
  pub candidate_from_host_header : Bool
  pub video_codec : VideoCodec
  pub video_bitrate : ℕ
  pub video_bitrate_max : ℕ
  pub video_bitrate_min : ℕ
  pub hardware_encoder : HardwareEncoder
  pub pipeline_latency_ms : ℕ
  pub keyframe_interval : ℕ

pub record LoggingConfig : Type 0 where
  pub level : Text
  pub logfile : Option Text
  pub format : Text

pub record Config : Type 0 where
  pub server : ServerConfig
  pub display : DisplayConfig
  pub http : HttpConfig
  pub encoding : EncodingConfig
  pub input : InputConfig
  pub audio : AudioConfig
  pub logging : LoggingConfig
  pub webrtc : WebRtcConfig

unfoldable pub webrtc_default : WebRtcConfig
webrtc_default = record {
  enabled = true;
  tcp_only = true;
  public_candidate = none;
  candidate_from_host_header = true;
  video_codec = VideoCodec.h264;
  video_bitrate = 8000;
  video_bitrate_max = 16000;
  video_bitrate_min = 1000;
  hardware_encoder = HardwareEncoder.auto;
  pipeline_latency_ms = 50;
  keyframe_interval = 60;
}

-- `Config::default`, in a build with or without the `pulseaudio` feature.
unfoldable pub config_default : Bool → Config
unfolding webrtc_default
config_default pulseaudio = record {
  server = record {
    foreground = false;
    pidfile = codes "/var/run/ivnc.pid";
    user = none;
    group = none;
  };
  display = record { width = 1920; height = 1080; refresh_rate = 60 };
  http = record {
    host = codes "0.0.0.0";
    port = 8008;
    cors_origin = none;
    basic_auth_enabled = true;
    basic_auth_user = codes "user";
    basic_auth_password = codes "mypasswd";
    tls = false;
  };
  encoding = record { target_fps = 30; max_fps = 60 };
  input = record {
    enable_keyboard = true;
    enable_mouse = true;
    enable_clipboard = true;
    enable_binary_clipboard = false;
    enable_commands = false;
    file_transfers = codes "upload" ∷ codes "download" ∷ [];
    upload_dir = codes "~/Desktop";
    mouse_sensitivity = 4607182418800017408;
  };
  audio = record { enabled = pulseaudio; sample_rate = 48000; channels = 2; bitrate = 128000 };
  logging = record { level = codes "info"; logfile = none; format = codes "json" };
  webrtc = webrtc_default;
}

abbrev pub Checked : Type 0
Checked = Result Text (Unit {0})

-- The test on one entry of `file_transfers`: blank, `none`, `upload` or `download`.
unfoldable pub is_transfer : Text → Bool
is_transfer entry =
    let value = to_ascii_lowercase (trim entry) in
    is_empty value
    || same value (codes "none")
    || same value (codes "upload")
    || same value (codes "download")

unfoldable pub check_transfers : List Text → Checked
unfolding is_transfer
check_transfers [] = ok tt
check_transfers (entry ∷ entries) = do
  fail_if (not (is_transfer entry))
      (codes "Input file_transfers must contain \"upload\" or \"download\"")
  check_transfers entries

unfoldable pub check_audio : AudioConfig → Checked
check_audio a =
    if a.enabled
    then (fail_if (a.sample_rate == 0) (codes "Audio sample rate must be non-zero")
        >> fail_if (a.channels == 0 || ltb 2 a.channels) (codes "Audio channels must be 1 or 2")
        >> fail_if (a.bitrate == 0) (codes "Audio bitrate must be non-zero"))
    else ok tt

unfoldable pub check_webrtc : WebRtcConfig → Checked
check_webrtc w =
    if w.enabled
    then (fail_if (w.video_bitrate == 0) (codes "WebRTC video bitrate must be non-zero")
        >> fail_if (ltb w.video_bitrate w.video_bitrate_min)
            (codes "WebRTC min bitrate cannot exceed target bitrate")
        >> fail_if (ltb w.video_bitrate_max w.video_bitrate)
            (codes "WebRTC target bitrate cannot exceed max bitrate")
        >> fail_if (w.keyframe_interval == 0) (codes "WebRTC keyframe interval must be non-zero"))
    else ok tt

-- `candidate.parse::<SocketAddr>().is_err()`, when there is a candidate.
abbrev pub bad_candidate {ℓ} : {Addr : Type ℓ} → (Text → Option Addr) → Option Text → Bool
bad_candidate parse none = false
bad_candidate parse (some candidate) = not (is_some (parse candidate))

unfoldable pub validate {ℓ} : {Addr : Type ℓ} → (Text → Option Addr) → Config → Checked
unfolding check_transfers check_audio check_webrtc
validate parse c =
    fail_if (c.display.width == 0 || c.display.height == 0)
      (codes "Display dimensions must be non-zero")
    >> fail_if (ltb c.encoding.max_fps c.encoding.target_fps)
        (codes "Target FPS cannot exceed max FPS")
    >> fail_if (c.http.basic_auth_enabled && is_empty c.http.basic_auth_password)
        (codes "Basic auth is enabled but password is empty")
    >> check_transfers c.input.file_transfers
    >> fail_if (not c.webrtc.tcp_only) (codes "WebRTC tcp_only must be true in this build")
    >> fail_if (bad_candidate parse c.webrtc.public_candidate)
        (codes "WebRTC public_candidate must be in ip:port format")
    >> check_audio c.audio
    >> check_webrtc c.webrtc

-- The parsed command line.
pub record Args : Type 0 where
  pub config : Text
  pub width : ℕ
  pub height : ℕ
  pub http_port : Option ℕ
  pub basic_auth_enabled : Option Bool
  pub basic_auth_user : Option Text
  pub basic_auth_password : Option Text
  pub binary_clipboard_enabled : Option Bool
  pub commands_enabled : Option Bool
  pub file_transfers : Option Text
  pub upload_dir : Option Text
  pub webrtc_public_candidate : Option Text
  pub webrtc_candidate_from_host_header : Option Bool
  pub verbose : Bool
  pub foreground : Bool
  pub tls : Bool
  pub pidfile : Text

-- `ft.split(',').map(|s| s.trim().to_string()).collect()`.
abbrev pub transfers_of : Text → List Text
transfers_of s = map trim (split 44 s)

abbrev or_else {ℓ} : {A : Type ℓ} → Option A → Option A → Option A
or_else none o = o
or_else (some a) o = some a

unfoldable pub apply_cli_overrides : Config → Args → Config
apply_cli_overrides c a = record c {
  display = record c.display { width = a.width; height = a.height };
  http = record c.http {
    port = unwrap_or a.http_port c.http.port;
    basic_auth_enabled = unwrap_or a.basic_auth_enabled c.http.basic_auth_enabled;
    basic_auth_user = unwrap_or a.basic_auth_user c.http.basic_auth_user;
    basic_auth_password = unwrap_or a.basic_auth_password c.http.basic_auth_password;
    tls = a.tls || c.http.tls;
  };
  input = record c.input {
    enable_binary_clipboard = unwrap_or a.binary_clipboard_enabled c.input.enable_binary_clipboard;
    enable_commands = unwrap_or a.commands_enabled c.input.enable_commands;
    file_transfers = elim a.file_transfers [
      | none ↦ c.input.file_transfers
      | some ft ↦ transfers_of ft
    ];
    upload_dir = unwrap_or a.upload_dir c.input.upload_dir;
  };
  webrtc = record c.webrtc {
    public_candidate = or_else a.webrtc_public_candidate c.webrtc.public_candidate;
    candidate_from_host_header =
        unwrap_or a.webrtc_candidate_from_host_header c.webrtc.candidate_from_host_header;
  };
}
