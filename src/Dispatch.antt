-- ===== src/Dispatch.antt =====
-- `handle_datachannel_data` of src/webrtc/rtc_session.rs: which of the handlers a message of the data
-- channel goes to, in the order of the source. The handlers are those of the other modules, run
-- one after the other on the state they share.
pub mod Invariant
pub mod Routes
use selkies_core.Prelude.{
  ℕ, ◌≤◌, ◌<◌, Bool, true, false, ◌&&◌, ◌||◌, List, [], ◌∷◌, ◌++◌, Option, none, some, Bytes, Text,
  codes, same, starts_with, trim_start_matches, split_once, parse_u32, parse_u64, ltb, leb,
  if◌then◌else◌, and_then, ok, err,
}
use selkies_core.Shared
use selkies_core.Shared.{
  SharedState, handle_command_message, resize_display, update_client_fps, update_client_latency,
  update_webrtc_stats, mark_clipboard_written, broadcast_text,
}
use selkies_core.Upload
use selkies_core.Upload.{FileUploadHandler, FileSystem, handle_control_message, handle_binary}
use selkies_core.Clipboard
use selkies_core.Clipboard.{ClipboardReceiver, Services, Effect, handle_message}
use selkies_core.Settings.{
  RuntimeSettings, JsonApi, if_some, set_target_fps, handle_simple_message, apply_settings_json,
}
use selkies_core.Input.{InputEvent, InputEventData, default, Parsed, parse_input_text}

-- What a message can change: the handlers' states, the events sent to the compositor, the time of
-- the last pong, and what the clipboard did outside.
pub record World : Type 0 where
  pub upload : FileUploadHandler
  pub clipboard : ClipboardReceiver
  pub settings : RuntimeSettings
  pub shared : SharedState
  pub events : List InputEventData
  pub last_pong : ℕ
  pub clipboard_log : List Effect

-- What other code answers while a message is handled: the clock, HOME, the file system, base64 and
-- the system clipboard, `serde_json`, `from_utf8` and its inverse, and `xxh64`.
pub record Outside (Value : Type 0) : Type 0 where
  pub now : ℕ
  pub home : Option Text
  pub file_system : FileSystem
  pub services : Services
  pub json : JsonApi Value
  pub from_utf8 : Bytes → Option Text
  pub as_bytes : Text → Bytes
  pub xxh64 : Bytes → ℕ → ℕ

-- `let _ = ctx.input_tx.send(event)`.
abbrev pub send_event : InputEventData → World → World
send_event e w = record w { events = w.events ++ e ∷ [] }

-- A handler that takes the message ends the dispatch.
abbrev pub or_else : Bool × World → (World → World) → World
or_else (true, w) next = w
or_else (false, w) next = next w

-- The payload behind a tag.
abbrev pub behind : Text → Text → Text
behind text tag = trim_start_matches text tag

unfoldable pub offer_upload : FileSystem → Text → World → Bool × World
offer_upload fs text w =
    let r = handle_control_message fs text w.upload in (r.0, record w { upload = r.1 })

module _ {Value : Type 0} (o : Outside Value) where
  -- What the clipboard's effects do to the shared state.
  unfoldable pub perform : Effect → SharedState → SharedState
  perform (Effect.incoming t) s = s
  perform (Effect.system_write mime bytes) s = s
  perform (Effect.marked mime bytes) s = mark_clipboard_written o.xxh64 o.as_bytes mime bytes s
  perform (Effect.send_text t) s = broadcast_text t s

  unfoldable pub perform_all : List Effect → SharedState → SharedState
  unfolding perform
  perform_all [] s = s
  perform_all (e ∷ es) s = perform_all es (perform e s)

-- The receiver reads the runtime setting each time; its effects are those of this message.
abbrev pub receiver : World → ClipboardReceiver
receiver w = record w.clipboard { binary = w.settings.binary_clipboard_enabled; effects = [] }

module _ {Value : Type 0} (o : Outside Value) where
  unfoldable pub offer_clipboard : Text → World → Bool × World
  unfolding perform_all
  offer_clipboard text w =
      let r = handle_message o.services text (receiver w) in
      (
        r.0,
        record w {
          clipboard = r.1;
          shared = perform_all o r.1.effects w.shared;
          clipboard_log = w.clipboard_log ++ r.1.effects;
        },
      )

  unfoldable pub offer_command : Text → World → Bool × World
  offer_command text w =
      let r = handle_command_message o.home text w.shared in (r.0, record w { shared = r.1 })

unfoldable pub offer_simple : Text → World → Bool × World
offer_simple text w =
    let r = handle_simple_message text w.settings in (r.0, record w { settings = r.1 })

-- `r,<width>x<height>`, within the largest display.
unfoldable pub parse_size : Text → Option (ℕ × ℕ)
parse_size payload = and_then (split_once b'x' payload) λ parts.
    and_then (parse_u32 parts.0) λ width. and_then (parse_u32 parts.1) λ height.
      if ltb 0 width && ltb 0 height && leb width 7680 && leb height 4320
      then some (width, height)
      else none

abbrev pub resize_to : ℕ × ℕ → World → World
resize_to size w = record w { shared = resize_display size.0 size.1 w.shared }

abbrev pub fps_to : ℕ → World → World
fps_to fps w = record w { settings = set_target_fps fps w.settings }

abbrev pub client_fps_to : ℕ → World → World
client_fps_to fps w = record w { shared = update_client_fps fps w.shared }

abbrev pub client_latency_to : ℕ → World → World
client_latency_to ms w = record w { shared = update_client_latency ms w.shared }

abbrev pub stats_to : Text → Text → World → World
stats_to kind payload w = record w { shared = update_webrtc_stats kind payload w.shared }

-- An event for one window.
abbrev pub window_event : InputEvent → ℕ → InputEventData
window_event kind id = record default { event_type = kind; window_id = id }

-- The event of a text that no handler took, if it is one.
abbrev pub send_parsed : Parsed → World → World
send_parsed (ok e) w = send_event e w
send_parsed (err e) w = w

unfoldable pub send_input : Text → World → World
send_input text w = send_parsed (parse_input_text text) w

-- The tests behind the settings' handler, in the order of the source.
unfoldable pub handle_client : Text → World → World
unfolding send_input parse_size
handle_client text w =
    if same text (codes "kr")
    then send_event (record default { event_type = InputEvent.keyboard_reset }) w
    else if starts_with text (codes "s,") || starts_with text (codes "SET_NATIVE_CURSOR_RENDERING,")
    then w
    else if starts_with text (codes "r,")
    then if_some (parse_size (behind text (codes "r,"))) resize_to w
    else if starts_with text (codes "_arg_fps,")
    then if_some (parse_u32 (behind text (codes "_arg_fps,"))) fps_to w
    else if starts_with text (codes "_f,")
    then if_some (parse_u32 (behind text (codes "_f,"))) client_fps_to w
    else if starts_with text (codes "_l,")
    then if_some (parse_u64 (behind text (codes "_l,"))) client_latency_to w
    else if starts_with text (codes "_stats_video,")
    then stats_to (codes "video") (behind text (codes "_stats_video,")) w
    else if starts_with text (codes "_stats_audio,")
    then stats_to (codes "audio") (behind text (codes "_stats_audio,")) w
    else if starts_with text (codes "focus,")
    then if_some (parse_u32 (behind text (codes "focus,")))
        (λ id. send_event (window_event InputEvent.window_focus id)) w
    else if starts_with text (codes "close,")
    then if_some (parse_u32 (behind text (codes "close,")))
        (λ id. send_event (window_event InputEvent.window_close id)) w
    else send_input text w

module _ {Value : Type 0} (o : Outside Value) where
  -- From the settings on.
  unfoldable pub handle_settings : Text → World → World
  unfolding offer_simple handle_client
  handle_settings text w =
      if starts_with text (codes "SETTINGS,")
      then record w {
        settings = apply_settings_json o.json (behind text (codes "SETTINGS,")) w.settings;
      }
      else or_else (offer_simple text w) (handle_client text)

  unfoldable pub handle_text : Text → World → World
  unfolding offer_upload offer_clipboard offer_command handle_settings
  handle_text text w =
      if starts_with text (codes "pong")
      then record w { last_pong = o.now }
      else or_else (offer_upload o.file_system text w) λ w1.
        or_else (offer_clipboard o text w1)
          λ w2. or_else (offer_command o text w2) (handle_settings text)

-- A message of the data channel.
pub record ChannelData : Type 0 where
  pub binary : Bool
  pub payload : Bytes

module _ {Value : Type 0} (o : Outside Value) where
  unfoldable pub handle_datachannel_data : ChannelData → World → World
  unfolding handle_text
  handle_datachannel_data m w =
      if m.binary
      then record w { upload = handle_binary o.file_system m.payload w.upload }
      else elim (o.from_utf8 m.payload) [ none ↦ w | some text ↦ handle_text o text w ]

-- The messages of a session, each with what other code answers while it is handled.
unfoldable pub handle_messages :
    {Value : Type 0} → List (Outside Value × ChannelData) → World → World
unfolding handle_datachannel_data
handle_messages [] w = w
handle_messages ((o, m) ∷ ms) w = handle_messages ms (handle_datachannel_data o m w)
