-- ===== src/Lib.antt =====
-- iVnc (selkies-core), a Wayland desktop streamed to a browser: a verification library for the
-- logic of its Rust sources.
--
-- The program is one server on one port. A connection is classified by its first bytes
-- (src/web/http_server.rs) as HTTP or as ICE over TCP. An ICE connection carries packets framed by
-- RFC 4571 (src/webrtc/tcp_framing.rs), which the session loop (src/webrtc/rtc_session.rs) reads
-- and writes. Video comes from the encoder through a frame buffer (src/main.rs), which repairs
-- marker bits and keeps the last keyframe for sessions that join. A session's data channel carries
-- input events, settings, uploads and clipboards, each with a handler of its own; a session is set
-- up over a signaling connection. The configuration comes from a file under the command line. Beside
-- it, an MCP server lets a program use the desktop, and an API manages the applications on it.
--
-- * Framing, with Framing/Steps, Stream and RoundTrip: src/webrtc/tcp_framing.rs, the loops around
--   `next_packet` in src/webrtc/rtc_session.rs and session.rs, and the writes of `drain_outputs`.
--   `drain` runs the loop on fuel; a packet taken shortens the buffer, so the buffer's length is
--   enough, and Framing/Stream shows it.
-- * Rtp, with Rtp/Packet and Parse: `rtp_util` of src/webrtc/media_track.rs, against an encoder
--   written from RFC 3550.
-- * Frames, with Frames/Laws and Cache: `is_h264_keyframe_packet`, `flush_frame` and
--   `pull_and_broadcast_rtp` of src/main.rs. The broadcast is a list of what was sent.
-- * Input, with Input/RoundTrip and Bounds: src/input.rs and `parse_input_text` of
--   src/webrtc/data_channel.rs.
-- * Config, with Config/Validate and Overrides: src/config/mod.rs, src/args.rs and
--   `apply_cli_overrides` of src/main.rs.
-- * Settings, with Settings/Bounds and Messages: src/runtime_settings.rs.
-- * Upload, with Upload/Paths, Names, Safety, Links, Confined and Transfer: src/file_upload.rs. The
--   file system is a parameter, its answers an argument of each message, and its changes are a log.
-- * Clipboard, with Clipboard/Chunks, Invariant and Delivery: src/clipboard.rs and the clipboard
--   functions of src/web/shared.rs.
-- * Http, with Http/Classify and Auth: the classification, `basic_auth_middleware` and
--   `change_password_handler` of src/web/http_server.rs.
-- * Sessions, with Sessions/Count and Capacity: the pending sessions of src/webrtc/session.rs, the
--   counter of src/web/shared.rs and the end of `drive_session`, as steps in any order.
-- * Keyboard, with Keyboard/Typing and Combos: src/mcp/keyboard.rs and `keysym_to_keycode` of
--   src/main.rs.
-- * Mcp, with Mcp/Calls, Released, Typed and Within: the tools of src/mcp/mod.rs, with the events
--   that they send as a list. Mcp/Typed reads them with a US keyboard, by keycodes.
-- * Ui, with Ui/Ranges: src/config/ui.rs; the environment is a parameter.
-- * Shared, with Shared/Subscribers: src/web/shared.rs, and the compositor's turn for a new display
--   size in src/main.rs.
-- * Dispatch, with Dispatch/Invariant and Routes: `handle_datachannel_data` of
--   src/webrtc/rtc_session.rs, which runs the handlers of Upload, Clipboard, Shared, Settings and
--   Input one after the other on their joint state.
-- * Drive, with Drive/Media and Drain: the other functions of src/webrtc/rtc_session.rs, with str0m
--   as a machine that is polled. The outer loop of `drain_outputs` has its 512 cycles as fuel, the
--   inner one str0m's own bound on outputs before a timeout; Drive/Drain shows that this is enough.
-- * Signaling, with Signaling/Trimmed, Legacy and Slices: src/webrtc/signaling.rs; with
--   Signaling/Server and Cleanup: src/transport/signaling_server.rs.
-- * Apps, with Apps/Rows, Spec and Refines: src/pake_apps/app.rs and store.rs, with SQLite as a
--   parameter; with Apps/Handlers and Created: `add_app` and `update_app` of src/pake_apps/api.rs, a
--   body being what it answers when asked for a field; with Apps/Dates: `chrono_now` of the same file.
--   The loop over the years has one more round as fuel than there are days, which is enough since
--   each round takes a year off. With Apps/Process, Steps, Entries, Tracked, Turns, Stopped,
--   Orphans and Watchdog: src/pake_apps/process.rs. Apps/Process has its operations and a turn of its
--   watchdog that nothing interrupts, Apps/Steps the requests and the watchdog side by side, a step
--   for each time that one of them takes a lock.
-- * Prelude and its children: lists, results, `str` and its number parsers, shared by all. A text is
--   the list of its code points.
-- * The module Tests and its children: the theorems below at concrete inputs, one each.
--
-- Numbers are native natural numbers; a cast `as u32` is `% 2 ^ 32`, a saturating sum is cut at
-- 2 ^ 64 - 1, and signed fields are integers. Text and byte walks are structural; the loop that
-- takes a prefix off repeatedly and the one that cuts chunks run on the length of their input,
-- which is enough since each round shortens it.
--
-- Other code stands as parameters: base64, UTF-8 decoding, `serde_json`, SQLite, str0m, the parser of
-- socket addresses, the file system and the system clipboard. Not modelled: the compositor (Smithay
-- callbacks), GStreamer and audio, str0m's protocols, the select loop of a session, web views,
-- routing and static files, and the screenshots.
-- The handlers of one session run one at a time, each a function of its own state; the tasks that
-- share the session manager, and the users of the process manager and its watchdog, are steps in any
-- order. Logging is left out but for the two log lines that slice a text, and so may panic.
-- The read loop of a session is taken for packets that str0m takes; one that it refuses ends the
-- session as a frame that cannot be read does.
pub mod Mcp
pub mod Prelude
pub mod Framing
pub mod Rtp
pub mod Frames
pub mod Input
pub mod Config
pub mod Settings
pub mod Clipboard
pub mod Upload
pub mod Http
mod Tests
pub mod Sessions
pub mod Keyboard
pub mod Ui
pub mod Signaling
pub mod Apps
pub mod Drive
pub mod Dispatch
pub mod Shared
