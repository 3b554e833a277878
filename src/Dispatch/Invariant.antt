-- ===== src/Dispatch/Invariant.antt =====
-- `handle_datachannel_data` of src/webrtc/rtc_session.rs: what every message keeps true of the
-- handlers' states taken together.
use selkies_core.Prelude.{
  ℕ, ◌≤◌, ◌<◌, ◌≡◌, refl, sym, subst, ◌==◌, not, is_empty, trim, trim_start_matches, Bool, true,
  false, ◌&&◌, ◌||◌, List, [], ◌∷◌, ◌++◌, Option, none, some, Text, codes, same, starts_with,
  split_once, parse_u32, ltb, leb, OnSome, All, All-append, if-intro, option-intro,
  from_str_radix-bound, and_then, arith, Result, ok, err, if◌then◌else◌,
}
use selkies_core.Shared.{
  SharedState, resize_display, mark_clipboard_written, broadcast_text, handle_command_message,
  update_client_fps, update_client_latency, update_webrtc_stats,
}
use selkies_core.Upload.Paths.{FilePath}
use selkies_core.Upload.Safety
use selkies_core.Upload.Confined
use selkies_core.Upload.Confined.{Message, handle_all-Inv}
use selkies_core.Clipboard.{Effect, ClipboardReceiver, handle_message}
use selkies_core.Clipboard.Invariant
use selkies_core.Clipboard.Invariant.{IsSmall, handle_message-Inv}
use selkies_core.Settings.{if_some}
use selkies_core.Settings.Bounds.{
  InBounds, set_target_fps-InBounds, handle_simple_message-InBounds, apply_settings_json-InBounds,
}
use selkies_core.Input.{InputEvent, InputEventData, WebrtcError, parse_input_text}
use selkies_core.Input.Bounds as Events
use selkies_core.Input.Bounds.{parse_input_text-InBounds}
use selkies_core.Dispatch.{
  World, Outside, ChannelData, send_event, or_else, behind, offer_upload, offer_clipboard,
  offer_command, offer_simple, perform, perform_all, receiver, parse_size, resize_to, fps_to,
  client_fps_to, client_latency_to, stats_to, window_event, send_parsed, send_input, handle_client,
  handle_settings, handle_text, handle_datachannel_data, handle_messages,
}

-- A display has at least one pixel, and at most 7680 by 4320.
abbrev pub SizeOk : ℕ × ℕ → Type 0
SizeOk size = (0 < size.0) × (0 < size.1) × (size.0 ≤ 7680) × (size.1 ≤ 4320)

pub record Inv (root : FilePath) (w : World) : Type 0 where
  pub upload : Safety.Inv root w.upload
  pub clipboard : Invariant.Inv w.clipboard
  pub settings : InBounds w.settings
  pub resize : OnSome SizeOk w.shared.pending_resize
  pub events : All Events.InBounds w.events
  pub log : All IsSmall w.clipboard_log

sent :
    (e : InputEventData) (es : List InputEventData)
    → Events.InBounds e
    → All Events.InBounds es
    → All Events.InBounds (es ++ e ∷ [])
sent e es h hs = All-append Events.InBounds es (e ∷ []) hs (h, tt)

perform_all-resize :
    {Value : Type 0} (o : Outside Value) (es : List Effect) (s : SharedState)
    → (perform_all o es s).pending_resize ≡ s.pending_resize
unfolding perform_all perform mark_clipboard_written broadcast_text
perform_all-resize o [] s = refl
perform_all-resize o (Effect.incoming t ∷ es) s = perform_all-resize o es s
perform_all-resize o (Effect.system_write mime b ∷ es) s = perform_all-resize o es s
perform_all-resize o (Effect.marked mime b ∷ es) s =
    perform_all-resize o es (perform o (Effect.marked mime b) s)
perform_all-resize o (Effect.send_text t ∷ es) s =
    perform_all-resize o es (perform o (Effect.send_text t) s)

-- The size that a client asks for is checked.
parse_size-SizeOk : (t : Text) → OnSome SizeOk (parse_size t)
unfolding parse_size
parse_size-SizeOk t = go (split_once b'x' t)
  where
    checked :
        (width height : ℕ)
        → OnSome SizeOk (
            if ltb 0 width && ltb 0 height && leb width 7680 && leb height 4320
            then some (width, height)
            else none)
    checked width height = ground arith

    second :
        (width : ℕ) (o : Option ℕ)
        → OnSome SizeOk (
            and_then o λ height.
              if ltb 0 width && ltb 0 height && leb width 7680 && leb height 4320
              then some (width, height)
              else none)
    second width none = tt
    second width (some height) = checked width height

    first :
        (o : Option ℕ) (t : Text)
        → OnSome SizeOk (
            and_then o λ width. and_then (parse_u32 t) λ height.
              if ltb 0 width && ltb 0 height && leb width 7680 && leb height 4320
              then some (width, height)
              else none)
    first none t = tt
    first (some width) t = second width (parse_u32 t)

    go :
        (o : Option (Text × Text))
        → OnSome SizeOk (
            and_then o λ parts. and_then (parse_u32 parts.0) λ width.
              and_then (parse_u32 parts.1) λ height.
                if ltb 0 width && ltb 0 height && leb width 7680 && leb height 4320
                then some (width, height)
                else none)
    go none = tt
    go (some (a, b)) = first (parse_u32 a) b

module _ (root : FilePath) where
  -- A change of the shared state that leaves the size asked for alone.
  shared-Inv :
      (s : SharedState) (w : World)
      → s.pending_resize ≡ w.shared.pending_resize
      → Inv root w
      → Inv root (record w { shared = s })
  shared-Inv s w e i = record {
    upload = i.upload;
    clipboard = i.clipboard;
    settings = i.settings;
    resize = subst (OnSome SizeOk) (sym e) i.resize;
    events = i.events;
    log = i.log;
  }

  send_event-Inv :
      (e : InputEventData) (w : World) → Events.InBounds e → Inv root w → Inv root (send_event e w)
  send_event-Inv e w h i = record {
    upload = i.upload;
    clipboard = i.clipboard;
    settings = i.settings;
    resize = i.resize;
    events = sent e w.events h i.events;
    log = i.log;
  }

  or_else-Inv :
      (r : Bool × World) (next : World → World)
      → Inv root r.1
      → ((w : World) → Inv root w → Inv root (next w))
      → Inv root (or_else r next)
  or_else-Inv (true, w) next i keep = i
  or_else-Inv (false, w) next i keep = keep w i

  -- A change by a value that may be missing.
  if_some-Inv {ℓ κ} :
      {A : Type ℓ} (P : A → Type κ) (o : Option A) (set : A → World → World) (w : World)
      → OnSome P o
      → ((a : A) → P a → Inv root (set a w))
      → Inv root w
      → Inv root (if_some o set w)
  if_some-Inv P none set w p keep i = i
  if_some-Inv P (some a) set w p keep i = keep a p

  resize_to-Inv :
      (size : ℕ × ℕ) (w : World) → SizeOk size → Inv root w → Inv root (resize_to size w)
  unfolding resize_display
  resize_to-Inv size w h i = record {
    upload = i.upload;
    clipboard = i.clipboard;
    settings = i.settings;
    resize =
        if-intro (λ (s : SharedState). OnSome SizeOk s.pending_resize)
          (w.shared.display_size.0 == size.0 && w.shared.display_size.1 == size.1) (λ e. i.resize)
          (λ e. h);
    events = i.events;
    log = i.log;
  }

  fps_to-Inv : (fps : ℕ) (w : World) → Inv root w → Inv root (fps_to fps w)
  fps_to-Inv fps w i = record {
    upload = i.upload;
    clipboard = i.clipboard;
    settings = set_target_fps-InBounds fps w.settings i.settings;
    resize = i.resize;
    events = i.events;
    log = i.log;
  }

  offer_upload-Inv :
      {Value : Type 0} (o : Outside Value) (t : Text) (w : World)
      → Inv root w
      → Inv root (offer_upload o.file_system t w).1
  unfolding offer_upload Confined.handle_all Confined.handle
  offer_upload-Inv o t w i = record {
    upload = (handle_all-Inv root (Message.control o.file_system t ∷ []) w.upload i.upload).0;
    clipboard = i.clipboard;
    settings = i.settings;
    resize = i.resize;
    events = i.events;
    log = i.log;
  }

  receiver-Inv : (w : World) → Inv root w → Invariant.Inv (receiver w)
  receiver-Inv w i =
      let c = i.clipboard in record { running = c.running; room = c.room; cap = c.cap; small = tt }

  offer_clipboard-Inv :
      {Value : Type 0} (o : Outside Value) (t : Text) (w : World)
      → Inv root w
      → Inv root (offer_clipboard o t w).1
  unfolding offer_clipboard
  offer_clipboard-Inv o t w i =
      let after = handle_message-Inv o.services t (receiver w) (receiver-Inv w i) in
      let r : ClipboardReceiver = (handle_message o.services t (receiver w)).1 in
      record {
        upload = i.upload;
        clipboard = after;
        settings = i.settings;
        resize = subst (OnSome SizeOk) (sym (perform_all-resize o r.effects w.shared)) i.resize;
        events = i.events;
        log = All-append IsSmall w.clipboard_log r.effects i.log after.small;
      }

  offer_simple-Inv : (t : Text) (w : World) → Inv root w → Inv root (offer_simple t w).1
  unfolding offer_simple
  offer_simple-Inv t w i = record {
    upload = i.upload;
    clipboard = i.clipboard;
    settings = handle_simple_message-InBounds t w.settings i.settings;
    resize = i.resize;
    events = i.events;
    log = i.log;
  }

  offer_command-Inv :
      {Value : Type 0} (o : Outside Value) (t : Text) (w : World)
      → Inv root w
      → Inv root (offer_command o t w).1
  unfolding offer_command handle_command_message
  offer_command-Inv o t w i =
      shared-Inv (handle_command_message o.home t w.shared).1 w
        (if-intro Same (not (starts_with t (codes "cmd,"))) (λ e. refl)
          (λ e.
            if-intro Same (not w.shared.enable_commands) (λ e. refl)
              (λ e.
                if-intro Same (is_empty (trim (trim_start_matches t (codes "cmd,")))) (λ e. refl)
                  (λ e. refl))))
        i
    where
      Same : Bool × SharedState → Type 0
      Same r = r.1.pending_resize ≡ w.shared.pending_resize

  stats_to-Inv : (kind t : Text) (w : World) → Inv root w → Inv root (stats_to kind t w)
  unfolding update_webrtc_stats
  stats_to-Inv kind t w i =
      shared-Inv (update_webrtc_stats kind t w.shared) w
        (if-intro Same (same kind (codes "video")) (λ e. refl)
          (λ e. if-intro Same (same kind (codes "audio")) (λ e. refl) (λ e. refl)))
        i
    where
      Same : SharedState → Type 0
      Same s = s.pending_resize ≡ w.shared.pending_resize

  client-Inv :
      (n : ℕ) (w : World)
      → Inv root w
      → Inv root (client_fps_to n w) × Inv root (client_latency_to n w)
  unfolding update_client_fps update_client_latency
  client-Inv n w i = (
    shared-Inv (update_client_fps n w.shared) w refl i,
    shared-Inv (update_client_latency n w.shared) w refl i,
  )

  window_event-InBounds :
      (kind : InputEvent) (id : ℕ) → id ≤ 4294967295 → Events.InBounds (window_event kind id)
  window_event-InBounds kind id h = ground arith

  send_input-Inv : (t : Text) (w : World) → Inv root w → Inv root (send_input t w)
  unfolding send_input
  send_input-Inv t w i = go (parse_input_text t) (λ e. parse_input_text-InBounds t {e = e})
    where
      go :
          (r : Result WebrtcError InputEventData)
          → ((e : InputEventData) → r ≡ ok e → Events.InBounds e)
          → Inv root (send_parsed r w)
      go (ok e) h = send_event-Inv e w (h e refl) i
      go (err e) h = i

  window-Inv :
      (kind : InputEvent) (t : Text) (w : World)
      → Inv root w
      → Inv root (if_some (parse_u32 t) (λ id. send_event (window_event kind id)) w)
  window-Inv kind t w i =
      if_some-Inv (λ n. n ≤ 4294967295) (parse_u32 t) _ w (from_str_radix-bound 10 4294967295 t)
        (λ id h. send_event-Inv (window_event kind id) w (window_event-InBounds kind id h) i) i

  number-Inv :
      (o : Option ℕ) (set : ℕ → World → World) (w : World)
      → ((n : ℕ) → Inv root (set n w))
      → Inv root w
      → Inv root (if_some o set w)
  number-Inv none set w keep i = i
  number-Inv (some n) set w keep i = keep n

  handle_client-Inv : (t : Text) (w : World) → Inv root w → Inv root (handle_client t w)
  unfolding handle_client
  handle_client-Inv t w i =
      if-intro (Inv root) (same t (codes "kr")) (λ e. send_event-Inv _ w (ground arith) i)
        λ e.
          if-intro (Inv root)
            (starts_with t (codes "s,") || starts_with t (codes "SET_NATIVE_CURSOR_RENDERING,"))
            (λ e. i)
            λ e.
              if-intro (Inv root) (starts_with t (codes "r,"))
                (λ e.
                  if_some-Inv SizeOk (parse_size (behind t (codes "r,"))) resize_to w
                    (parse_size-SizeOk (behind t (codes "r,"))) (λ size h. resize_to-Inv size w h i)
                    i)
                λ e.
                  if-intro (Inv root) (starts_with t (codes "_arg_fps,"))
                    (λ e. number-Inv _ fps_to w (λ n. fps_to-Inv n w i) i)
                    λ e.
                      if-intro (Inv root) (starts_with t (codes "_f,"))
                        (λ e. number-Inv _ client_fps_to w (λ n. (client-Inv n w i).0) i)
                        λ e.
                          if-intro (Inv root) (starts_with t (codes "_l,"))
                            (λ e. number-Inv _ client_latency_to w (λ n. (client-Inv n w i).1) i)
                            (λ e. client_rest-Inv t w i)
    where
      client_rest-Inv :
          (t : Text) (w : World)
          → Inv root w
          → Inv root (
              if starts_with t (codes "_stats_video,")
              then stats_to (codes "video") (behind t (codes "_stats_video,")) w
              else if starts_with t (codes "_stats_audio,")
              then stats_to (codes "audio") (behind t (codes "_stats_audio,")) w
              else if starts_with t (codes "focus,")
              then if_some
                  (parse_u32 (behind t (codes "focus,")))
                  (λ id. send_event (window_event InputEvent.window_focus id))
                  w
              else if starts_with t (codes "close,")
              then if_some
                  (parse_u32 (behind t (codes "close,")))
                  (λ id. send_event (window_event InputEvent.window_close id))
                  w
              else send_input t w)
      client_rest-Inv t w i =
          if-intro (Inv root) (starts_with t (codes "_stats_video,"))
            (λ e. stats_to-Inv (codes "video") _ w i)
            λ e.
              if-intro (Inv root) (starts_with t (codes "_stats_audio,"))
                (λ e. stats_to-Inv (codes "audio") _ w i)
                λ e.
                  if-intro (Inv root) (starts_with t (codes "focus,"))
                    (λ e. window-Inv InputEvent.window_focus _ w i)
                    λ e.
                      if-intro (Inv root) (starts_with t (codes "close,"))
                        (λ e. window-Inv InputEvent.window_close _ w i) (λ e. send_input-Inv t w i)

  module _ {Value : Type 0} (o : Outside Value) where
    handle_settings-Inv : (t : Text) (w : World) → Inv root w → Inv root (handle_settings o t w)
    unfolding handle_settings
    handle_settings-Inv t w i =
        if-intro (Inv root) (starts_with t (codes "SETTINGS,"))
          (λ e. record {
            upload = i.upload;
            clipboard = i.clipboard;
            settings = apply_settings_json-InBounds o.json _ w.settings i.settings;
            resize = i.resize;
            events = i.events;
            log = i.log;
          })
          (λ e.
            or_else-Inv (offer_simple t w) (handle_client t) (offer_simple-Inv t w i)
              (handle_client-Inv t))

    handle_text-Inv : (t : Text) (w : World) → Inv root w → Inv root (handle_text o t w)
    unfolding handle_text
    handle_text-Inv t w i =
        if-intro (Inv root) (starts_with t (codes "pong"))
          (λ e. record {
            upload = i.upload;
            clipboard = i.clipboard;
            settings = i.settings;
            resize = i.resize;
            events = i.events;
            log = i.log;
          })
          (λ e. or_else-Inv (offer_upload o.file_system t w) _ (offer_upload-Inv o t w i) λ w1 i1.
            or_else-Inv (offer_clipboard o t w1) _ (offer_clipboard-Inv o t w1 i1) λ w2 i2.
              or_else-Inv (offer_command o t w2) _ (offer_command-Inv o t w2 i2)
                (handle_settings-Inv t))

    handle_datachannel_data-Inv :
        (m : ChannelData) (w : World) → Inv root w → Inv root (handle_datachannel_data o m w)
    unfolding handle_datachannel_data Confined.handle_all Confined.handle
    handle_datachannel_data-Inv m w i =
        if-intro (Inv root) m.binary
          (λ e. record {
            upload =
                (handle_all-Inv root (Message.binary o.file_system m.payload ∷ []) w.upload
                  i.upload).0;
            clipboard = i.clipboard;
            settings = i.settings;
            resize = i.resize;
            events = i.events;
            log = i.log;
          })
          (λ e.
            option-intro (Inv root) (o.from_utf8 m.payload) (λ e. i) (λ t e. handle_text-Inv t w i))

  -- Whatever messages the data channel brings, text or binary, and whatever other code answers:
  -- every path that an upload touches is its directory followed by safe names, and the bytes written
  -- to an open file are those counted, at most the declared size; the clipboard stays within 16 MiB,
  -- the settings within their bounds, and the display size that waits for the compositor within 1 to
  -- 7680 by 1 to 4320; and the numbers of an event sent on have the range of their fields. The state
  -- at the start has these properties.
  pub handle_messages-Inv :
      {Value : Type 0} (ms : List (Outside Value × ChannelData)) (w : World)
      → Inv root w
      → Inv root (handle_messages ms w)
  unfolding handle_messages
  handle_messages-Inv [] w i = i
  handle_messages-Inv ((o, m) ∷ ms) w i =
      handle_messages-Inv ms _ (handle_datachannel_data-Inv o m w i)
