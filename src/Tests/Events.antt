-- ===== src/Tests/Events.antt =====
-- Input messages, settings and the configuration on small inputs.
use selkies_core.Prelude.{
  ℕ, ◌≡◌, ◌↔◌, refl, List, [], ◌∷◌, Option, none, some, true, false, Text, codes, ok, arith,
}
use selkies_core.Input.{InputEvent, default, parse_input_text, format_output_message}
use selkies_core.Input.RoundTrip.{parse_input_text-payload}
use selkies_core.Settings.{RuntimeSettings, JsonApi, new}
use selkies_core.Settings.Bounds.{Call}
use selkies_core.Settings.Bounds
use selkies_core.Config.{Args, validate, config_default}
use selkies_core.Config.Validate.{IsValid, validate_iff}

parse_input_text-payload_example :
    (parse_input_text (format_output_message (codes "t") (codes "a,b"))
      ≡ ok (record default { event_type = InputEvent.text_input; text = codes "a,b" }))
    × (parse_input_text (format_output_message (codes "c") (codes "a,b"))
        ≡ ok (record default { event_type = InputEvent.clipboard; text = codes "a,b" }))
parse_input_text-payload_example = parse_input_text-payload (codes "a,b")

-- A host and a port, in a table of one address.
abbrev pub parse_addr : Text → Option ℕ
parse_addr t = some 8008

abbrev settings : RuntimeSettings
settings = new (config_default true)

abbrev keyframe_calls : List Call
keyframe_calls = Call.simple (codes "vb,0") ∷ Call.keyframe ∷ Call.json (codes "doc") ∷ []

-- A document is a number, and every key holds it.
abbrev pub api : JsonApi ℕ
api = record {
  from_str = λ t. some 90;
  get = λ key value. some value;
  as_u64 = λ value. some value;
  as_bool = λ value. none;
}

pub default_webrtc : (config_default true).webrtc.enabled ≡ true
unfolding config_default
default_webrtc = refl

pub default_fits : Bounds.FitsU32 (config_default true)
unfolding config_default
default_fits = record {
  max_fps = omega arith;
  video = omega arith;
  audio = omega arith;
  interval = omega arith;
}

validate_iff_example :
    (validate parse_addr (config_default false) ≡ ok tt) ↔ IsValid parse_addr (config_default false)
validate_iff_example = validate_iff parse_addr (config_default false)

abbrev only_sizes : Args
only_sizes = record {
  config = codes "/etc/ivnc.toml";
  width = 1280;
  height = 720;
  http_port = none;
  basic_auth_enabled = none;
  basic_auth_user = none;
  basic_auth_password = none;
  binary_clipboard_enabled = none;
  commands_enabled = none;
  file_transfers = none;
  upload_dir = none;
  webrtc_public_candidate = none;
  webrtc_candidate_from_host_header = none;
  verbose = false;
  foreground = false;
  tls = false;
  pidfile = codes "/var/run/ivnc.pid";
}
